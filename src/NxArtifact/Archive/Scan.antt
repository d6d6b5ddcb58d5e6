-- ===== src/NxArtifact/Archive/Scan.antt =====
-- internal/nxartifact/inspect.go: what Inspect keeps of an archive, and of one that Pack wrote.
use nx_cache.Common.{
  ℕ, suc, zero, ◌≤◌, ◌<◌, ◌≡◌, ◌≢◌, refl, sym, ap, ◌∙◌, inl, inr, Bool, true, false, not, ◌&&◌,
  Option, none, some, List, [], ◌∷◌, ◌++◌, append_assoc, append-nil, arith, ltb, if◌then◌else◌,
  Bool-cases, length, length-append, length-take, take, take_of_length-le, map, All, Text, codes,
  text_eq, is_empty,
}
use nx_cache.Storage.Types.{Body, limit_reader}
use nx_cache.Store.Types.{no_info}
use nx_cache.NxArtifact.Patterns.{Engine}
use nx_cache.NxArtifact.Terminal.Parse.{finalize}
use nx_cache.NxArtifact.Archive.{
  max_terminal_bytes, max_inspect_bytes, max_tar_entries, max_inspect_paths, TypeFlag, regular,
  Member, Codec, Part, Scanned, terminal_output, exit_code, output, part_of, clean_name, is_noted,
  scan_part, scan, is_gzip, inspect_members, inspect_unzipped, inspect, file_member, packed, pack,
  put_uint32,
}

-- What the loop may keep.
abbrev pub IsBounded : Scanned → Type 0
IsBounded s = (length s.terminal ≤ max_terminal_bytes) × (length s.paths ≤ max_inspect_paths)

length-noted :
    (typeflag : TypeFlag) (name : Text) (paths : List Text)
    → length paths ≤ max_inspect_paths
    → length (if is_noted typeflag name paths then paths ++ name ∷ [] else paths)
      ≤ max_inspect_paths
unfolding is_noted
length-noted typeflag name paths h = ground (arith, length-append paths (name ∷ []))

scan_part-IsBounded :
    (more : List Text → Scanned) (p : Part) (m : Member) (paths : List Text)
    → length paths ≤ max_inspect_paths
    → ((later : List Text) → length later ≤ max_inspect_paths → IsBounded (more later))
    → IsBounded (scan_part more p m paths)
unfolding scan_part
scan_part-IsBounded more terminal_output m paths h go =
    (omega (arith, length-take max_terminal_bytes m.content), h)
scan_part-IsBounded more exit_code m paths h go = go paths h
scan_part-IsBounded more output m paths h go =
    go _ (length-noted m.typeflag (clean_name m.name) paths h)

-- However long an archive is and whatever its members hold, the loop keeps at most 64 KiB of a
-- terminal's output and at most 256 paths, if it starts with no more paths.
pub scan-IsBounded :
    (n : ℕ) (members : List Member) (broken : Bool) (paths : List Text)
    → length paths ≤ max_inspect_paths
    → IsBounded (scan n members broken paths)
unfolding scan
scan-IsBounded zero members broken paths h = (omega arith, h)
scan-IsBounded (suc n) [] broken paths h = (omega arith, h)
scan-IsBounded (suc n) (m ∷ members) broken paths h =
    scan_part-IsBounded (scan n members broken) (part_of m.name) m paths h
      (scan-IsBounded n members broken)

-- The paths of the outputs among the files.
abbrev pub path_of_part : Part → Text → List Text
path_of_part output name =
    if not (is_empty name) && not (text_eq name (codes ".")) then name ∷ [] else []
path_of_part exit_code name = []
path_of_part terminal_output name = []

unfoldable pub output_paths : List (Text × Text) → List Text
output_paths [] = []
output_paths ((name, content) ∷ files) =
    path_of_part (part_of name) (clean_name name) ++ output_paths files

-- No file has the name of the terminal's output.
abbrev pub IsOutput : Text × Text → Type 0
IsOutput (name, content) = part_of name ≢ terminal_output

take_append : (n : ℕ) (xs ys : List Text) → n ≤ length xs → take n (xs ++ ys) ≡ take n xs
take_append zero xs ys h = refl
take_append (suc n) [] ys h = absurd (omega arith)
take_append (suc n) (x ∷ xs) ys h = ap (◌∷◌ x) (take_append n xs ys (omega arith))

noted_take :
    (name : Text) (paths rest : List Text)
    → length paths ≤ max_inspect_paths
    → take max_inspect_paths
        ((if is_noted regular name paths then paths ++ name ∷ [] else paths) ++ rest)
      ≡ take max_inspect_paths (paths ++ (path_of_part output name ++ rest))
unfolding is_noted
noted_take name paths rest h =
    elim (Bool-cases (not (is_empty name) && not (text_eq name (codes ".")))) [
      | inr passed ↦ rw passed refl
      | inl kept ↦ elim (Bool-cases (ltb (length paths) max_inspect_paths)) [
        | inl room ↦
            rw (kept, room) (ap (take max_inspect_paths) (append_assoc paths (name ∷ []) rest))
        | inr full ↦
            rw (kept, full)
              (take_append max_inspect_paths paths rest (ground arith)
                ∙ sym (take_append max_inspect_paths paths (name ∷ rest) (ground arith)))
      ]
    ]

-- What the loop makes of a file of Pack before the other members.
scan_part-file :
    (more : List Text → Scanned) (end : List Text → Scanned) (name content : Text) (p : Part)
    (rest paths : List Text)
    → p ≢ terminal_output
    → length paths ≤ max_inspect_paths
    → ((later : List Text)
        → length later ≤ max_inspect_paths
        → more later ≡ end (take max_inspect_paths (later ++ rest)))
    → scan_part more p (file_member (name, content)) paths
      ≡ end (take max_inspect_paths (paths ++ (path_of_part p (clean_name name) ++ rest)))
unfolding scan_part
scan_part-file more end name content terminal_output rest paths other h go = absurd (other refl)
scan_part-file more end name content exit_code rest paths other h go = go paths h
scan_part-file more end name content output rest paths other h go =
    go _ (length-noted regular (clean_name name) paths h)
    ∙ ap end (noted_take (clean_name name) paths rest h)

part_of-terminal : part_of (codes "terminalOutput") ≡ terminal_output
unfolding part_of text_eq
part_of-terminal = refl

scan_part-terminal :
    (more : List Text → Scanned) (p : Part) (m : Member) (paths : List Text)
    → p ≡ terminal_output
    → scan_part more p m paths
      ≡ record { terminal = take max_terminal_bytes m.content; paths = paths; failed = false }
unfolding scan_part
scan_part-terminal more terminal_output m paths h = refl
scan_part-terminal more exit_code m paths h = ground arith
scan_part-terminal more output m paths h = ground arith

-- The loop reads the files and the terminal's output, and nothing behind it.
scan-packed :
    (terminal : Text) (n : ℕ) (files : List (Text × Text)) (behind : List Member) (broken : Bool)
    (paths : List Text)
    → length files < n
    → All IsOutput files
    → length paths ≤ max_inspect_paths
    → scan n
        (map file_member files ++ file_member (codes "terminalOutput", terminal) ∷ behind)
        broken
        paths
      ≡ record {
        terminal = take max_terminal_bytes terminal;
        paths = take max_inspect_paths (paths ++ output_paths files);
        failed = false;
      }
unfolding scan output_paths
scan-packed terminal zero files behind broken paths few all h = absurd (omega arith)
scan-packed terminal (suc n) [] behind broken paths few all h =
    scan_part-terminal (scan n behind broken) (part_of (codes "terminalOutput"))
      (file_member (codes "terminalOutput", terminal)) paths part_of-terminal
    ∙ ap (λ ps. record { terminal = take max_terminal_bytes terminal; paths = ps; failed = false })
        (sym (
          ap (take max_inspect_paths) (append-nil paths)
          ∙ take_of_length-le max_inspect_paths paths h))
scan-packed terminal (suc n) ((name, content) ∷ files) behind broken paths few all h =
    scan_part-file _
      (λ ps. record { terminal = take max_terminal_bytes terminal; paths = ps; failed = false })
      name content (part_of name) (output_paths files) paths all.0 h
      (λ later h'. scan-packed terminal n files behind broken later (omega arith) all.1 h')

-- What the package compress/gzip promises: what was written is read back.
pub record GzipLaws (codec : Codec) : Type 0 where
  pub gunzip-gzip :
      (archive : Text)
      → codec.gunzip (record { bytes = codec.gzip archive; broken = false })
        ≡ some (record { bytes = archive; broken = false })
  pub gzip_magic : (archive : Text) → is_gzip (codec.gzip archive) ≡ true

-- What the package archive/tar writes of some members is within the limit, and is read back.
abbrev pub IsReadBack : Codec → List Member → Type 0
IsReadBack codec members =
    (archive : Text)
    → codec.tar members ≡ some archive
    → (codec.untar (record { bytes = archive; broken = false }) ≡ (members, false))
      × (length archive ≤ max_inspect_bytes)

module _ (engine : Engine) {codec : Codec} (l : GzipLaws codec) where
  limited :
      (archive : Text)
      → length archive ≤ max_inspect_bytes
      → limit_reader (record { bytes = archive; broken = false }) max_inspect_bytes
        ≡ record { bytes = archive; broken = false }
  unfolding limit_reader
  limited archive h =
      ap (λ x. record { bytes = x; broken = false }) (take_of_length-le max_inspect_bytes archive h)

  packed_payload :
      (t : Option Text) (payload : Text)
      → (elim t [ none ↦ none | some archive ↦ some (codec.gzip archive) ]) ≡ some payload
      → (archive : Text) × (t ≡ some archive) × (codec.gzip archive ≡ payload)
  packed_payload none payload h = ground arith
  packed_payload (some archive) payload h = (archive, refl, ground arith)

  inspect_members-packed :
      (terminal : Text) (code : ℕ) (files : List (Text × Text))
      → length files < max_tar_entries
      → All IsOutput files
      → inspect_members engine codec (packed terminal code files, false)
        ≡ finalize engine no_info
            (take max_terminal_bytes terminal)
            (take max_inspect_paths (output_paths files))
  unfolding inspect_members packed
  inspect_members-packed terminal code files few all =
      let s =
        scan-packed terminal max_tar_entries files
          (file_member (codes "code", put_uint32 code) ∷ []) false [] few all (omega arith) in
      ap (λ x. finalize engine no_info x.terminal x.paths) s

  inspect-gzip :
      (archive : Text) (members : List Member)
      → length archive ≤ max_inspect_bytes
      → codec.untar (record { bytes = archive; broken = false }) ≡ (members, false)
      → inspect engine codec (record { bytes = codec.gzip archive; broken = false })
        ≡ inspect_members engine codec (members, false)
  unfolding inspect inspect_unzipped
  inspect-gzip archive members small q =
      let r : Body = record { bytes = codec.gzip archive; broken = false } in
      ap (λ z. inspect_unzipped engine codec (if z then codec.gunzip r else some r))
        (l.gzip_magic archive)
      ∙ ap (inspect_unzipped engine codec) (l.gunzip-gzip archive)
      ∙ ap (λ b. inspect_members engine codec (codec.untar b)) (limited archive small)
      ∙ ap (inspect_members engine codec) q

  -- The task that Inspect reads from what Pack wrote is the one that the terminal's output names in
  -- its first 64 KiB, with the first 256 paths of the outputs, if there are fewer than 4000 files,
  -- none is called `terminalOutput`, and the archive has at most 8 MiB and is read back by the
  -- packages.
  pub inspect-pack :
      (terminal : Text) (code : ℕ) (files : List (Text × Text)) (payload : Text)
      → length files < max_tar_entries
      → All IsOutput files
      → IsReadBack codec (packed terminal code files)
      → pack codec terminal code files ≡ some payload
      → inspect engine codec (record { bytes = payload; broken = false })
        ≡ finalize engine no_info
            (take max_terminal_bytes terminal)
            (take max_inspect_paths (output_paths files))
  unfolding pack
  inspect-pack terminal code files payload few all back h =
      let (archive, written, same) =
        packed_payload (codec.tar (packed terminal code files)) payload h in
      ap (λ x. inspect engine codec (record { bytes = x; broken = false })) (sym same)
      ∙ inspect-gzip archive (packed terminal code files) (back archive written).1
          (back archive written).0
      ∙ inspect_members-packed terminal code files few all
