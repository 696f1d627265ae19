-- ===== src/Release/Sound.antt =====
-- What a verified release is, and that `verify` accepts exactly such folders.
use project_veil.Prelude.{
  ◌≡◌, refl, List, [], ◌∷◌, ◌++◌, Bool, true, false, not, ◌&&◌, some, arith, Bytes, Text, codes,
  text_eq, text_eq_iff, ends_with, contains, Dict, lookup, ok, err, value_error, >>=-eq-ok,
  Bool-cases, inl, inr, Result-cases,
}
use project_veil.Release.Payload.{checksum_name}
use project_veil.Release.Verify.{
  Manifest, Tools, Folder, is_false, manifests, sum_line, verify_manifest, verify_members,
  verify_archive,
}

module _ (t : Tools) (version commit : Text) where
  -- The archive holds one manifest, of this version and commit, made from a clean tree.
  pub record OneManifest (members : Dict Bytes) : Type 0 where
    pub raw : Bytes
    pub m : Manifest
    pub only : manifests members ≡ raw ∷ []
    pub parsed : t.loads raw ≡ ok m
    pub right_version : m.version ≡ version
    pub right_commit : m.commit ≡ commit
    pub clean : m.dirty ≡ some false

  pub data ArchiveOk (name : Text) (bytes : Bytes) : Type 0 where
    zip :
        ends_with name (codes ".zip") ≡ true
        → (members : Dict Bytes) → t.zip_members bytes ≡ ok members
        → OneManifest members
        → ArchiveOk name bytes
    tar :
        ends_with name (codes ".zip") ≡ false
        → (ends_with name (codes ".tar.gz") && not (contains name (codes "opnsense"))) ≡ true
        → (members : Dict Bytes) → t.tar_members bytes ≡ ok members
        → OneManifest members
        → ArchiveOk name bytes
    unread :
        ends_with name (codes ".zip") ≡ false
        → (ends_with name (codes ".tar.gz") && not (contains name (codes "opnsense"))) ≡ false
        → ArchiveOk name bytes

  -- The file is there, the text of its checksum file is its digest and its name, and its archive is
  -- right.
  pub record FileOk (folder : Folder) (name : Text) : Type 0 where
    pub bytes : Bytes
    pub found : lookup name folder ≡ some bytes
    pub content : Bytes
    pub beside : lookup (checksum_name name) folder ≡ some content
    pub recorded : t.read_text content ≡ ok (sum_line (t.sha256 bytes) name)
    pub archive : ArchiveOk name bytes

  abbrev checks : Manifest → Bool
  checks m = (text_eq m.version version && text_eq m.commit commit) && is_false m.dirty

  verify_manifest_ok :
      (raw : Bytes) (m : Manifest)
      → t.loads raw ≡ ok m
      → checks m ≡ true
      → verify_manifest t version commit raw ≡ ok tt
  unfolding verify_manifest
  verify_manifest_ok raw m e c = rw (e, c)

  verify_manifest_sound :
      (raw : Bytes)
      → verify_manifest t version commit raw ≡ ok tt
      → (m : Manifest) × (t.loads raw ≡ ok m) × (checks m ≡ true)
  unfolding verify_manifest
  verify_manifest_sound raw h = elim (Result-cases (t.loads raw)) [
    | inr (e, q) ↦ cc (rw q at h)
    | inl (m, q) ↦ elim (Bool-cases (checks m)) [ inl c ↦ (m, q, c) | inr c ↦ cc (rw (q, c) at h) ]
  ]

  checks_sound :
      (m : Manifest)
      → checks m ≡ true
      → (m.version ≡ version) × (m.commit ≡ commit) × (m.dirty ≡ some false)
  unfolding is_false
  checks_sound m h = ground (arith, text_eq_iff m.version version, text_eq_iff m.commit commit)

  checks_complete :
      (m : Manifest)
      → m.version ≡ version
      → m.commit ≡ commit
      → m.dirty ≡ some false
      → checks m ≡ true
  unfolding is_false
  checks_complete m v c d =
      rw ((text_eq_iff m.version version).1 v, (text_eq_iff m.commit commit).1 c, d)

  verify_members_sound :
      (name : Text) (members : Dict Bytes)
      → verify_members t version commit name members ≡ ok tt
      → OneManifest members
  unfolding verify_members
  verify_members_sound name members h = go (manifests members) refl h
    where
      go :
          (found : List Bytes)
          → manifests members ≡ found
          → (elim found [
            | [] ↦ err (value_error (codes "missing or duplicate manifest: " ++ name))
            | raw ∷ more ↦ elim more [
              | [] ↦ verify_manifest t version commit raw
              | _ ∷ _ ↦ err (value_error (codes "missing or duplicate manifest: " ++ name))
            ]
          ])
            ≡ ok tt
          → OneManifest members
      go [] e h = cc
      go (raw ∷ []) e h =
          let (m, parsed, c) = verify_manifest_sound raw h in
          let (v, k, d) = checks_sound m c in
          record {
            raw = raw;
            m = m;
            only = e;
            parsed = parsed;
            right_version = v;
            right_commit = k;
            clean = d;
          }
      go (raw ∷ _ ∷ _) e h = cc

  verify_members_complete :
      (name : Text) (members : Dict Bytes)
      → OneManifest members
      → verify_members t version commit name members ≡ ok tt
  unfolding verify_members
  verify_members_complete name members o =
      rw (o.only, verify_members)
        (verify_manifest_ok o.raw o.m o.parsed
          (checks_complete o.m o.right_version o.right_commit o.clean))

  pub verify_archive_sound :
      (name : Text) (bytes : Bytes)
      → verify_archive t version commit name bytes ≡ ok tt
      → ArchiveOk name bytes
  unfolding verify_archive
  verify_archive_sound name bytes h = elim (Bool-cases (ends_with name (codes ".zip"))) [
    | inl z ↦
        let (members, e, h') =
          >>=-eq-ok (t.zip_members bytes) (verify_members t version commit name) (rw z at h) in
        zip z members e (verify_members_sound name members h')
    | inr z ↦
        elim (Bool-cases
          (ends_with name (codes ".tar.gz") && not (contains name (codes "opnsense")))) [
            | inl g ↦
                let (members, e, h') =
                  >>=-eq-ok (t.tar_members bytes) (verify_members t version commit name)
                    (rw (z, g) at h) in
                tar z g members e (verify_members_sound name members h')
            | inr g ↦ unread z g
          ]
  ]

  pub verify_archive_complete :
      (name : Text) (bytes : Bytes)
      → ArchiveOk name bytes
      → verify_archive t version commit name bytes ≡ ok tt
  unfolding verify_archive
  verify_archive_complete name bytes (zip z members e o) =
      rw (z, e) (verify_members_complete name members o)
  verify_archive_complete name bytes (tar z g members e o) =
      rw (z, g, e) (verify_members_complete name members o)
  verify_archive_complete name bytes (unread z g) = rw (z, g)
