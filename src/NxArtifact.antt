-- ===== src/NxArtifact.antt =====
-- internal/nxartifact: what is inferred of a task from its headers, its terminal output and its
-- output paths.
pub mod Kind
pub mod Token
pub mod Patterns
pub mod Terminal
pub mod Archive
