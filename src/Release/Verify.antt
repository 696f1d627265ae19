-- ===== src/Release/Verify.antt =====
-- `verify_manifest` and `verify` of .github/scripts/release.py. SHA-256, the readers of the two
-- archive formats and the JSON parser are parameters.
use project_veil.Prelude.{
  List, [], ◌∷◌, ◌++◌, map, Bool, true, false, not, ◌&&◌, Option, some, Bytes, Text, codes, text_eq,
  ends_with, contains, same_set, Dict, lookup, insert, Result, ok, err, value_error, os_error,
  or_raise, guard, ◌>>=◌, ◌>>◌, if◌then◌else◌,
}
use project_veil.Release.Payload.{payload, checksum_name, sums_name, assets}

-- The three fields of a manifest; `dirty` is `none` for a JSON value that is no Boolean.
pub record Manifest : Type 0 where
  pub version : Text
  pub commit : Text
  pub dirty : Option Bool

-- The libraries that the script calls.
pub record Tools : Type 0 where
  pub sha256 : Bytes → Text
  -- The members of a zip or tar archive, with their contents; an exception for a damaged one.
  pub zip_members : Bytes → Result (Dict Bytes)
  pub tar_members : Bytes → Result (Dict Bytes)
  -- The text of a file: decoded, with every line end read as a line feed.
  pub read_text : Bytes → Result Text
  -- `json.loads(raw)` and its three lookups
  pub loads : Bytes → Result Manifest

-- A folder of files: names and contents.
abbrev pub Folder : Type 0
Folder = Dict Bytes

-- `dirty is False`
unfoldable pub is_false : Option Bool → Bool
is_false (some false) = true
is_false _ = false

-- `[n for n in archive.namelist() if n.endswith("/manifest.json")]`, with the contents
unfoldable pub manifests : Dict Bytes → List Bytes
unfolding ends_with
manifests [] = []
manifests ((name, raw) ∷ members) =
    if ends_with name (codes "/manifest.json") then raw ∷ manifests members else manifests members

-- The line of a checksum file.
abbrev pub sum_line : Text → Text → Text
sum_line digest name = digest ++ (codes "  " ++ (name ++ codes "\n"))

module _ (t : Tools) (version commit : Text) where
  unfoldable pub verify_manifest : Bytes → Result (Unit {0})
  unfolding is_false
  verify_manifest raw = do
    m ← t.loads raw
    guard ((text_eq m.version version && text_eq m.commit commit) && is_false m.dirty)
        (value_error (codes "package manifest does not match the clean release commit"))

  -- `if len(manifests) != 1: raise …`, and the check of the one manifest
  unfoldable pub verify_members : Text → Dict Bytes → Result (Unit {0})
  unfolding verify_manifest manifests
  verify_members name members = elim (manifests members) [
    | [] ↦ err (value_error (codes "missing or duplicate manifest: " ++ name))
    | raw ∷ more ↦ elim more [
      | [] ↦ verify_manifest raw
      | _ ∷ _ ↦ err (value_error (codes "missing or duplicate manifest: " ++ name))
    ]
  ]

  unfoldable pub verify_archive : Text → Bytes → Result (Unit {0})
  unfolding verify_members
  verify_archive name bytes =
      if ends_with name (codes ".zip")
      then (do members ← t.zip_members bytes; verify_members name members)
      else if ends_with name (codes ".tar.gz") && not (contains name (codes "opnsense"))
      then (do members ← t.tar_members bytes; verify_members name members)
      else ok tt

  -- The body of the loop over the names: the line for SHA256SUMS.
  unfoldable pub verify_file : Folder → Text → Result Text
  unfolding verify_archive
  verify_file folder name = do
    bytes ← or_raise (lookup name folder) os_error
    content ← or_raise (lookup (checksum_name name) folder) os_error
    recorded ← t.read_text content
    guard (text_eq recorded (sum_line (t.sha256 bytes) name))
        (value_error (codes "checksum mismatch: " ++ name))
    verify_archive name bytes
    ok (sum_line (t.sha256 bytes) name)

  unfoldable pub verify_files : Folder → List Text → Result Text
  unfolding verify_file
  verify_files folder [] = ok []
  verify_files folder (name ∷ names) = do
    line ← verify_file folder name
    lines ← verify_files folder names
    ok (line ++ lines)

  -- The folder with its SHA256SUMS, and the names to upload.
  unfoldable pub verify : Folder → Result (Folder × List Text)
  unfolding verify_files
  verify folder = do
    let names = payload version
    guard (same_set (map (λ (name, _). name) folder) (names ++ map checksum_name names))
        (value_error (codes "release payload is missing files or contains unexpected files"))
    sums ← verify_files folder names
    ok (insert sums_name sums folder, assets version)
