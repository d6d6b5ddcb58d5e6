-- ===== src/Tests/Alphabet.antt =====
-- Go's strings package at texts of ASCII.
use nx_cache.Common.{to_lower, trim_space}
use nx_cache.Store.Types.{Letters}

abbrev pub ascii : Letters
ascii = record { lower = to_lower; trim = trim_space }
