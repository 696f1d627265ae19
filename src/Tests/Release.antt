-- ===== src/Tests/Release.antt =====
-- Runs and instances for the release gate, with stand-ins for the libraries.
use project_veil.Prelude.{
  ◌≡◌, refl, List, [], ◌∷◌, ◌++◌, false, some, Text, codes, ok, insert, lookup, text_eq, mem_text,
  same_set, ends_with, contains, sort_text,
}
use project_veil.Release.Payload.{files, payload, assets, checksum_name, sums_name}
use project_veil.Release.Verify.{Tools, Folder, sum_line, verify}
use project_veil.Release.Accepts.{Released, sums, verify_sound, verify_complete}

abbrev version : Text
version = codes "0.3.2"

abbrev commit : Text
commit = codes "abc"

abbrev tools : Tools
tools = record {
  sha256 = λ _. codes "d0";
  zip_members = λ bytes. ok ((codes "veil/manifest.json", bytes) ∷ []);
  tar_members =
      λ bytes. ok ((codes "veil/share/manifest.json", bytes) ∷ (codes "veil/LICENSE", []) ∷ []);
  read_text = λ content. ok content;
  loads = λ _. ok (record { version = version; commit = commit; dirty = some false });
}

with_sums : List Text → Folder
with_sums [] = []
with_sums (name ∷ names) =
    (name, []) ∷ (checksum_name name, sum_line (codes "d0") name) ∷ with_sums names

folder : Folder
unfolding with_sums files
folder = with_sums (files version)

lines : List Text → Text
lines [] = []
lines (name ∷ names) = sum_line (codes "d0") name ++ lines names

verified :
    verify tools version commit folder
    ≡ ok (insert sums_name (lines (payload version)) folder, assets version)
unfolding verify folder lines payload assets insert lookup text_eq mem_text same_set ends_with
    contains sort_text
verified = refl

verify_sound_example :
    (r : Released tools version commit folder) × (◌≡◌ {A = Folder × List Text}
      (insert sums_name (lines (payload version)) folder, assets version)
      (
        insert sums_name (sums tools version commit folder (payload version) r.files) folder,
        assets version,
      ))
verify_sound_example =
    verify_sound tools version commit folder
      (insert sums_name (lines (payload version)) folder, assets version) verified

released : Released tools version commit folder
released = verify_sound_example.0

verify_complete_example :
    verify tools version commit folder
    ≡ ok (
      insert sums_name (sums tools version commit folder (payload version) released.files) folder,
      assets version,
    )
verify_complete_example = verify_complete tools version commit folder released
