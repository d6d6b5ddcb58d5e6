-- ===== src/Tests/Artifacts.antt =====
-- internal/nxartifact/inspect.go: an archive with a terminal's output.
use nx_cache.Common.{
  join, ◌≡◌, ◌≤◌, subst, refl, false, Option, none, some, List, [], ◌∷◌, arith, if◌then◌else◌,
  length, take, drop, All, Text, codes, text_eq, contains,
}
use nx_cache.Storage.Types.{Body}
use nx_cache.Store.Types.{no_info}
use nx_cache.NxArtifact.Patterns.{Engine, nx_run_re}
use nx_cache.NxArtifact.Terminal.Parse.{finalize}
use nx_cache.NxArtifact.Archive.{
  Part, max_terminal_bytes, max_inspect_paths, Codec, part_of, inspect, is_gzip, max_inspect_bytes,
  packed, pack, scan,
}
use nx_cache.NxArtifact.Archive.Scan.{
  GzipLaws, IsReadBack, IsOutput, IsBounded, output_paths, inspect-pack, scan-IsBounded,
}

-- An engine that finds a run of `app:build` where the text has one.
abbrev engine : Engine
engine = record {
  find_submatch = λ pattern text.
      if text_eq pattern nx_run_re
      then (if contains text (codes "> nx run app:build")
          then some (codes "> nx run app:build" ∷ codes "app:build" ∷ [])
          else none)
      else none;
  find_all_submatch = λ pattern text. [];
  matches = λ pattern text. false;
}

abbrev printed : Text
printed = codes "> nx run app:build"

abbrev files : List (Text × Text)
files = (codes "outputs/dist/a.js", codes "x") ∷ []

abbrev behind_magic : Body → Option Body
behind_magic r = some (record r { bytes = drop 2 r.bytes })

-- A codec that knows one archive.
abbrev codec : Codec
codec = record {
  gunzip = behind_magic;
  untar = λ r. (packed printed 0 files, false);
  tar = λ members. some (codes "tar");
  gzip = λ archive. 31 ∷ 139 ∷ archive;
}

gzip_laws : GzipLaws codec
unfolding is_gzip
gzip_laws = record { gunzip-gzip = λ archive. refl; gzip_magic = λ archive. refl }

read_back : IsReadBack codec (packed printed 0 files)
read_back archive h =
    let same : codes "tar" ≡ archive = cc in
    (refl, subst (λ x. length x ≤ max_inspect_bytes) same (omega arith))

an_output : part_of (codes "outputs/dist/a.js") ≡ Part.output
unfolding part_of text_eq join
an_output = refl

outputs_only : All IsOutput files
outputs_only = (λ h. ground (arith, an_output), tt)

written : pack codec printed 0 files ≡ some (31 ∷ 139 ∷ codes "tar")
unfolding pack
written = refl

inspect-pack_example :
    inspect engine codec (record { bytes = 31 ∷ 139 ∷ codes "tar"; broken = false })
    ≡ finalize engine no_info
        (take max_terminal_bytes printed)
        (take max_inspect_paths (output_paths files))
inspect-pack_example =
    inspect-pack engine gzip_laws printed 0 files (31 ∷ 139 ∷ codes "tar") (omega arith)
      outputs_only read_back written

scan-IsBounded_example : IsBounded (scan 4000 (packed printed 0 files) false [])
scan-IsBounded_example = scan-IsBounded 4000 (packed printed 0 files) false [] (omega arith)
