-- ===== src/NxArtifact/Archive.antt =====
-- internal/nxartifact/inspect.go: the archive of an artifact, read by Inspect and written by Pack.
pub mod Scan
use nx_cache.Common.{
  ℕ, suc, zero, ◌+◌, ◌/◌, ◌%◌, ◌^◌, Bool, true, false, not, ◌&&◌, ◌||◌, Option, none, some, List,
  [], ◌∷◌, ◌++◌, ltb, ◌==◌, if◌then◌else◌, length, take, map, Text, codes, text_eq, is_empty, split,
  join, trim_prefix,
}
use nx_cache.Storage.Types.{Body, limit_reader}
use nx_cache.Store.Types.{TaskInfo, no_info}
use nx_cache.NxArtifact.Patterns.{Engine}
use nx_cache.NxArtifact.Terminal.Parse.{finalize}

abbrev pub max_terminal_bytes : ℕ
max_terminal_bytes = 65536

abbrev pub max_inspect_bytes : ℕ
max_inspect_bytes = 8388608

abbrev pub max_tar_entries : ℕ
max_tar_entries = 4000

abbrev pub max_inspect_paths : ℕ
max_inspect_paths = 256

-- tar.TypeReg, tar.TypeDir and the other types of a member.
pub data TypeFlag : Type 0 where
  regular directory special : TypeFlag

abbrev pub is_reg_or_dir : TypeFlag → Bool
is_reg_or_dir regular = true
is_reg_or_dir directory = true
is_reg_or_dir special = false

-- A header that `tr.Next` answers, and what the reader yields before the next one.
pub record Member : Type 0 where
  pub name : Text
  pub typeflag : TypeFlag
  pub content : Text

-- What the readers and writers of compress/gzip and archive/tar make of their input. `gunzip` is
-- `none` if NewReader refuses the header; `untar` ends with an error instead of EOF if its second
-- part says so; `tar` is `none` if a header or a content is refused.
pub record Codec : Type 0 where
  pub gunzip : Body → Option Body
  pub untar : Body → List Member × Bool
  pub tar : List Member → Option Text
  pub gzip : Text → Text

-- The parts of path.Clean's answer for a path that begins with a slash; `stack` is what is kept of
-- the parts before, the last first.
unfoldable pub clean_parts : List Text → List Text → List Text
clean_parts stack [] = stack
clean_parts stack (part ∷ parts) =
    if is_empty part || text_eq part (codes ".")
    then clean_parts stack parts
    else if text_eq part (codes "..")
    then clean_parts (elim stack [ [] ↦ [] | top ∷ rest ↦ rest ]) parts
    else clean_parts (part ∷ stack) parts

abbrev pub reverse_onto : List Text → List Text → List Text
reverse_onto [] done = done
reverse_onto (part ∷ parts) done = reverse_onto parts (part ∷ done)

-- strings.ReplaceAll(s, "\\", "/")
unfoldable pub slashes : Text → Text
slashes [] = []
slashes (c ∷ s) = (if c == 92 then b'/' else c) ∷ slashes s

-- The name of a member: without the slash that path.Clean puts in front.
unfoldable pub clean_name : Text → Text
unfolding clean_parts slashes split
clean_name name = join b'/' (reverse_onto (clean_parts [] (split b'/' (slashes name))) [])

-- path.Base of such a name.
unfoldable pub base_of : Text → Text
unfolding clean_parts slashes split
base_of name = elim (clean_parts [] (split b'/' (slashes name))) [
  | [] ↦ codes "."
  | part ∷ parts ↦ part
]

-- The cases of the switch over the name.
pub data Part : Type 0 where
  terminal_output exit_code output : Part

unfoldable pub part_of : Text → Part
unfolding base_of clean_name
part_of name =
    if text_eq (base_of name) (codes "terminalOutput")
      || text_eq (clean_name name) (codes "terminalOutput")
    then terminal_output
    else if text_eq (base_of name) (codes "code")
        || text_eq (clean_name name) (codes "code")
        || text_eq (base_of name) (codes "source")
    then exit_code
    else output

-- Whether the path of an output is noted.
unfoldable pub is_noted : TypeFlag → Text → List Text → Bool
is_noted typeflag name paths =
    is_reg_or_dir typeflag
    && not (is_empty name)
    && not (text_eq name (codes "."))
    && ltb (length paths) max_inspect_paths

-- The terminal's text and the paths that the loop leaves, and whether it ended with an error.
pub record Scanned : Type 0 where
  pub terminal : Text
  pub paths : List Text
  pub failed : Bool

-- One pass of the loop; `more` is what the following ones make of the paths.
unfoldable pub scan_part : (List Text → Scanned) → Part → Member → List Text → Scanned
unfolding is_noted
scan_part more terminal_output m paths = record {
  terminal = take max_terminal_bytes m.content;
  paths = paths;
  failed = false;
}
scan_part more exit_code m paths = more paths
scan_part more output m paths =
    let name = clean_name m.name in
    more (if is_noted m.typeflag name paths then paths ++ name ∷ [] else paths)

-- The loop over the members, with how many more it may read and the paths that are noted.
unfoldable pub scan : ℕ → List Member → Bool → List Text → Scanned
unfolding part_of scan_part
scan zero members broken paths = record { terminal = []; paths = paths; failed = false }
scan (suc n) [] broken paths = record { terminal = []; paths = paths; failed = broken }
scan (suc n) (m ∷ members) broken paths = scan_part (scan n members broken) (part_of m.name) m paths

unfoldable pub is_gzip : Text → Bool
is_gzip (a ∷ b ∷ rest) = a == 31 && b == 139
is_gzip (a ∷ []) = false
is_gzip [] = false

module _ (engine : Engine) (codec : Codec) where
  unfoldable pub inspect_members : List Member × Bool → TaskInfo
  unfolding scan finalize
  inspect_members (members, broken) =
      let s = scan max_tar_entries members broken [] in finalize engine no_info s.terminal s.paths

  unfoldable pub inspect_unzipped : Option Body → TaskInfo
  unfolding inspect_members
  inspect_unzipped none = no_info
  inspect_unzipped (some src) = inspect_members (codec.untar (limit_reader src max_inspect_bytes))

  -- Inspect, which drops the error.
  unfoldable pub inspect : Body → TaskInfo
  unfolding inspect_unzipped is_gzip
  inspect r = inspect_unzipped (if is_gzip r.bytes then codec.gunzip r else some r)

-- binary.BigEndian.PutUint32
unfoldable pub put_uint32 : ℕ → Text
put_uint32 code =
    (code / 2 ^ 24) % 256 ∷ (code / 2 ^ 16) % 256 ∷ (code / 2 ^ 8) % 256 ∷ code % 256 ∷ []

abbrev pub file_member : Text × Text → Member
file_member (name, content) = record { name = name; typeflag = regular; content = content }

-- The members that Pack writes, with the files in the order in which the map yields them.
unfoldable pub packed : Text → ℕ → List (Text × Text) → List Member
unfolding put_uint32
packed terminal code files =
    map file_member files
    ++ file_member (codes "terminalOutput", terminal)
      ∷ file_member (codes "code", put_uint32 code)
      ∷ []

unfoldable pub pack : Codec → Text → ℕ → List (Text × Text) → Option Text
unfolding packed
pack codec terminal code files = elim (codec.tar (packed terminal code files)) [
  | none ↦ none
  | some archive ↦ some (codec.gzip archive)
]
