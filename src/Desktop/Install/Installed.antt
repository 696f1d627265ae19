-- ===== src/Desktop/Install/Installed.antt =====
-- What a finished installation holds.
use project_veil.Prelude.{
  ◌≡◌, refl, sym, ap, ◌∙◌, true, false, ◌++◌, some, inl, inr, Bytes, Text, ok, codes, Dict, lookup,
  text_eq, mem_text, Result-cases, append_assoc, if◌then◌else◌,
}
use project_veil.Desktop.Files.{file, Tree, ◌then◌, join, read_bytes, mkdir, atomic_write}
use project_veil.Desktop.Files.Keeps.{lookup-atomic_write}
use project_veil.Desktop.Install.{
  Host, to_install, installed_files, read_contents, write_contents, mode_of, install, manage,
  checks, target_of, applications_of, launcher_of, desktop_entry, write_launcher,
}
use project_veil.Desktop.Install.Safety.{
  manage_passed, manage_refused, perform_read, perform_unread, text_eq-append,
}
use project_veil.Desktop.Install.Contents.{
  then_returned, atomic_write_returned, AreRead, names_of, Holds, write_contents-Holds,
  read_contents-AreRead, read_contents_each,
}

launcher-join :
    (prefix name : Text) → text_eq (launcher_of prefix) (join (target_of prefix) name) ≡ false
unfolding join text_eq
launcher-join prefix name =
    let e =
      append_assoc prefix (codes "/share/applications") (codes "/net.projectveil.Veil.desktop") in
    let f = append_assoc prefix (codes "/lib/veil-desktop") (codes "/" ++ name) in
    ap (λ x. text_eq x (join (target_of prefix) name)) e
    ∙ ap (λ x. text_eq (prefix ++ codes "/share/applications/net.projectveil.Veil.desktop") x) f
    ∙ text_eq-append prefix _ (codes "/lib/veil-desktop/" ++ name)

write_launcher_returned :
    (host : Host) (target launcher : Text) (tree : Tree)
    → (write_launcher host target launcher tree).0 ≡ ok tt
    → (entry : Bytes) × (host.encode (desktop_entry target) ≡ ok entry)
      × ((atomic_write (host.fault launcher) (host.fresh launcher) launcher entry 0x1A4 tree).0
          ≡ ok tt)
      × ((write_launcher host target launcher tree).1
          ≡ (atomic_write (host.fault launcher) (host.fresh launcher) launcher entry 0x1A4 tree).1)
unfolding write_launcher
write_launcher_returned host target launcher tree w =
    elim (Result-cases (host.encode (desktop_entry target))) [
      | inl (entry, e) ↦ (entry, e, rw (e, write_launcher) at w, rw (e, write_launcher) refl)
      | inr (x, e) ↦ let r = rw (e, write_launcher) at w in cc
    ]

install_holds :
    (host : Host) (source prefix name : Text) (tree : Tree) (contents : Dict Bytes)
    (content : Bytes)
    → ((p : Text) → text_eq (host.fresh p) (join (target_of prefix) name) ≡ false)
    → text_eq (host.fresh (launcher_of prefix)) (launcher_of prefix) ≡ false
    → AreRead tree source contents
    → mem_text name (names_of contents) ≡ true
    → read_bytes tree (join source name) ≡ ok content
    → (install host
        (target_of prefix)
        (applications_of prefix)
        (launcher_of prefix)
        contents
        tree).0
      ≡ ok tt
    → (entry : Bytes) × (host.encode (desktop_entry (target_of prefix)) ≡ ok entry)
      × (lookup
            (join (target_of prefix) name)
            (install host
              (target_of prefix)
              (applications_of prefix)
              (launcher_of prefix)
              contents
              tree).1
          ≡ some (file content (mode_of name)))
      × (lookup
            (launcher_of prefix)
            (install host
              (target_of prefix)
              (applications_of prefix)
              (launcher_of prefix)
              contents
              tree).1
          ≡ some (file entry 0x1A4))
unfolding install Holds
install_holds host source prefix name tree contents content made own rs m here w =
    let target = target_of prefix in
    let launcher = launcher_of prefix in
    let dirs = mkdir host.denied target tree then mkdir host.denied (applications_of prefix) in
    let (w1, w2, e2) = then_returned (dirs then write_contents host target contents) _ w in
    let (_, w3, e3) = then_returned dirs (write_contents host target contents) w1 in
    let filled =
      write_contents-Holds host target source name tree content made here contents dirs.1 rs w3
        (inl m) in
    let left = (dirs then write_contents host target contents).1 in
    let (entry, bytes, w4, e4) = write_launcher_returned host target launcher left w2 in
    (
      entry,
      bytes,
      ap (lookup (join target name)) (e2 ∙ e4)
          ∙ lookup-atomic_write (host.fault launcher) (host.fresh launcher) launcher entry 0x1A4
              left (join target name) (made launcher) (launcher-join prefix name)
          ∙ ap (lookup (join target name)) e3
          ∙ filled,
      ap (lookup launcher) (e2 ∙ e4)
          ∙ atomic_write_returned (host.fault launcher) (host.fresh launcher) launcher entry 0x1A4
              left own w4,
    )

-- Where installing returns, every input file has been read, the installation holds its content with
-- the mode of its name, and the launcher is the desktop entry of the installation; the names that
-- `mkstemp` makes are taken to differ from these paths.
pub manage_installs :
    (host : Host) (source prefix name : Text) (tree : Tree)
    → ((p : Text) → text_eq (host.fresh p) (join (target_of prefix) name) ≡ false)
    → text_eq (host.fresh (launcher_of prefix)) (launcher_of prefix) ≡ false
    → mem_text name installed_files ≡ true
    → (manage host to_install source prefix tree).0 ≡ ok tt
    → (content : Bytes) × (read_bytes tree (join source name) ≡ ok content)
      × (lookup (join (target_of prefix) name) (manage host to_install source prefix tree).1
          ≡ some (file content (mode_of name)))
      × (entry : Bytes) × (host.encode (desktop_entry (target_of prefix)) ≡ ok entry)
      × (lookup (launcher_of prefix) (manage host to_install source prefix tree).1
          ≡ some (file entry 0x1A4))
manage_installs host source prefix name tree made own m w =
    elim (Result-cases (checks host tree (target_of prefix) (launcher_of prefix))) [
      | inr (_, c) ↦
          let r = ap (λ o. o.0) (manage_refused host to_install source prefix tree c) in cc
      | inl (_, c) ↦ elim (Result-cases (read_contents tree source installed_files)) [
        | inr (_, f) ↦
            let r =
              ap (λ o. o.0)
                (manage_passed host to_install source prefix tree c
                  ∙ perform_unread host source prefix tree f) in
            cc
        | inl (contents, f) ↦
            let same =
              manage_passed host to_install source prefix tree c
              ∙ perform_read host source prefix tree f in
            let (rs, names) = read_contents-AreRead tree source installed_files contents f in
            let (content, here) =
              read_contents_each tree source name installed_files contents f m in
            let (entry, bytes, a, b) =
              install_holds host source prefix name tree contents content made own rs
                (ap (mem_text name) names ∙ m) here (sym (ap (λ o. o.0) same) ∙ w) in
            (
              content,
              here,
              ap (λ o. lookup (join (target_of prefix) name) o.1) same ∙ a,
              entry,
              bytes,
              ap (λ o. lookup (launcher_of prefix) o.1) same ∙ b,
            )
      ]
    ]
