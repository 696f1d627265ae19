-- ===== src/Release/Accepts.antt =====
-- `verify` accepts exactly the folders that are a release.
use project_veil.Prelude.{
  ◌≡◌, refl, sym, ap, ◌∙◌, List, [], ◌∷◌, ◌++◌, map, Text, text_eq, text_eq_iff, mem_text, same_set,
  same_set_sound, same_set_complete, lookup, insert, ok, ◌>>=◌, >>=-eq-ok, All, Bool-cases,
  Option-cases, Result-cases, ok_injective, inl, inr,
}
use project_veil.Release.Payload.{payload, checksum_name, sums_name, assets}
use project_veil.Release.Verify.{
  Tools, Folder, sum_line, verify_archive, verify_file, verify_files, verify,
}
use project_veil.Release.Sound.{FileOk, verify_archive_sound, verify_archive_complete}

module _ (t : Tools) (version commit : Text) where
  verify_file_sound :
      (folder : Folder) (name : Text) {line : Text}
      → verify_file t version commit folder name ≡ ok line
      → (f : FileOk t version commit folder name) × (line ≡ sum_line (t.sha256 f.bytes) name)
  unfolding verify_file
  verify_file_sound folder name {line} h = elim (Option-cases (lookup name folder)) [
    | inl e ↦ cc (rw e at h)
    | inr (bytes, e) ↦ elim (Option-cases (lookup (checksum_name name) folder)) [
      | inl e' ↦ cc (rw (e, e') at h)
      | inr (content, e') ↦ elim (Result-cases (t.read_text content)) [
        | inr (x, r) ↦ cc (rw (e, e', r) at h)
        | inl (recorded, r) ↦
            let line' = sum_line (t.sha256 bytes) name in
            elim (Bool-cases (text_eq recorded line')) [
              | inr bad ↦ cc (rw (e, e', r, bad) at h)
              | inl good ↦
                  let (u, archive, last) =
                    >>=-eq-ok (verify_archive t version commit name bytes) (λ _. ok line')
                      (rw (e, e', r, good) at h) in
                  (
                    record {
                      bytes = bytes;
                      found = e;
                      content = content;
                      beside = e';
                      recorded = r ∙ ap ok ((text_eq_iff recorded line').0 good);
                      archive = verify_archive_sound t version commit name bytes archive;
                    },
                    cc,
                  )
            ]
      ]
    ]
  ]

  verify_file_complete :
      (folder : Folder) (name : Text) (f : FileOk t version commit folder name)
      → verify_file t version commit folder name ≡ ok (sum_line (t.sha256 f.bytes) name)
  unfolding verify_file
  verify_file_complete folder name f = rw (
    f.found,
    f.beside,
    f.recorded,
    (text_eq_iff (sum_line (t.sha256 f.bytes) name) _).1 refl,
    verify_archive_complete t version commit name f.bytes f.archive,
  )

  -- The text of SHA256SUMS: one line for each name, in order.
  abbrev pub sums :
      (folder : Folder) (names : List Text) → All (FileOk t version commit folder) names → Text
  sums folder [] _ = []
  sums folder (name ∷ names) (f, fs) = sum_line (t.sha256 f.bytes) name ++ sums folder names fs

  verify_files_sound :
      (folder : Folder) (names : List Text) {lines : Text}
      → verify_files t version commit folder names ≡ ok lines
      → (fs : All (FileOk t version commit folder) names) × (lines ≡ sums folder names fs)
  unfolding verify_files
  verify_files_sound folder [] h = (tt, cc)
  verify_files_sound folder (name ∷ names) {lines} h =
      let (line, e, h₁) =
        >>=-eq-ok (verify_file t version commit folder name)
          (λ line. verify_files t version commit folder names >>= λ rest. ok (line ++ rest)) h in
      let (rest, e₁, h₂) =
        >>=-eq-ok (verify_files t version commit folder names) (λ rest. ok (line ++ rest)) h₁ in
      let (f, same) = verify_file_sound folder name e in
      let (fs, sames) = verify_files_sound folder names e₁ in ((f, fs), cc)

  verify_files_complete :
      (folder : Folder) (names : List Text) (fs : All (FileOk t version commit folder) names)
      → verify_files t version commit folder names ≡ ok (sums folder names fs)
  unfolding verify_files
  verify_files_complete folder [] fs = refl
  verify_files_complete folder (name ∷ names) (f, fs) =
      rw (verify_file_complete folder name f, verify_files_complete folder names fs)

  -- The folder holds the payload with its checksum files and nothing else, and every file is right.
  pub record Released (folder : Folder) : Type 0 where
    pub exact :
        (name : Text)
        → mem_text name (map (λ (n, _). n) folder)
          ≡ mem_text name (payload version ++ map checksum_name (payload version))
    pub files : All (FileOk t version commit folder) (payload version)

  -- Where `verify` returns, the folder is a release: the file names are the payload and one checksum
  -- file for each, every checksum file's text is its file's digest and name, and every zip file and every
  -- tar archive but the one for OPNsense holds one manifest, of the version and commit, clean. The
  -- folder has gained SHA256SUMS, with one line for each name, and the result lists what to upload.
  pub verify_sound :
      (folder : Folder) (result : Folder × List Text)
      → verify t version commit folder ≡ ok result
      → (r : Released folder) × (result
          ≡ (insert sums_name (sums folder (payload version) r.files) folder, assets version))
  unfolding verify
  verify_sound folder result h =
      elim (Bool-cases (
        same_set (map (λ (n, _). n) folder)
          (payload version ++ map checksum_name (payload version)))) [
            | inr bad ↦ cc (rw bad at h)
            | inl good ↦
                let (lines, e, last) =
                  >>=-eq-ok (verify_files t version commit folder (payload version))
                    (λ lines. ok (insert sums_name lines folder, assets version)) (rw good at h) in
                let (fs, same) = verify_files_sound folder (payload version) e in
                (
                  record { exact = λ name. same_set_sound _ _ name good; files = fs },
                  sym (ok_injective last)
                      ∙ ap (λ l. (insert sums_name l folder, assets version)) same,
                )
          ]

  -- A release is accepted, with SHA256SUMS written and every file listed.
  pub verify_complete :
      (folder : Folder) (r : Released folder)
      → verify t version commit folder
        ≡ ok (insert sums_name (sums folder (payload version) r.files) folder, assets version)
  unfolding verify
  verify_complete folder r = rw (
    same_set_complete (map (λ (n, _). n) folder)
        (payload version ++ map checksum_name (payload version)) r.exact,
    verify_files_complete folder (payload version) r.files,
  )
