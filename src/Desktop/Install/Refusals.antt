-- ===== src/Desktop/Install/Refusals.antt =====
-- A refusal of the installer comes before any change.
use project_veil.Prelude.{
  ℕ, ◌≡◌, ◌≢◌, refl, sym, ap, ◌∙◌, Bool, ◌⊎◌, List, [], ◌∷◌, ◌++◌, inl, inr, Bytes, Text,
  value_error, os_error, Result, ok, err, Dict, lookup, insert, Bool-cases, Option-cases,
  Result-cases,
}
use project_veil.Desktop.Files.{
  file, directory, symlink, Tree, Outcome, ◌then◌, join, is_directory, parents, mkdir_loop, mkdir,
  Fault, no_fault, at_mkstemp, at_write, at_replace, atomic_write, Removal, not_stopped, at_unlink,
  at_rmtree, exists, unlink,
}
use project_veil.Desktop.Install.{
  Host, Action, to_install, to_uninstall, installed_files, read_contents, write_contents, mode_of,
  install, uninstall, perform, manage, checks, target_of, applications_of, launcher_of,
  desktop_entry, write_launcher,
}
use project_veil.Desktop.Install.Safety.{
  manage_passed, manage_refused, perform_read, perform_unread,
}

-- The call raises nothing but `OSError`.
abbrev RaisesOs : Result (Unit {0}) → Type 0
RaisesOs (ok _) = Unit
RaisesOs (err e) = e ≡ os_error

then_RaisesOs :
    (o : Outcome (Unit {0})) (next : Tree → Outcome (Unit {0}))
    → RaisesOs o.0
    → ((tree : Tree) → RaisesOs (next tree).0)
    → RaisesOs (o then next).0
then_RaisesOs (ok _, tree) next h k = k tree
then_RaisesOs (err e, tree) next h k = h

mkdir_loop-RaisesOs :
    (denied : Text → Bool) (parts : List Text) (tree : Tree)
    → RaisesOs (mkdir_loop denied parts tree).0
unfolding mkdir_loop
mkdir_loop-RaisesOs denied [] tree = tt
mkdir_loop-RaisesOs denied (part ∷ parts) tree = elim (Option-cases (lookup part tree)) [
  | inl e ↦ elim (Bool-cases (denied part)) [
    | inl shut ↦ rw (e, mkdir_loop, shut) refl
    | inr free ↦
        rw (e, mkdir_loop, free) (mkdir_loop-RaisesOs denied parts (insert part directory tree))
  ]
  | inr (directory, e) ↦ rw (e, mkdir_loop) (mkdir_loop-RaisesOs denied parts tree)
  | inr (file _ _, e) ↦ rw (e, mkdir_loop) refl
  | inr (symlink _, e) ↦ rw (e, mkdir_loop) refl
]

mkdir-RaisesOs :
    (denied : Text → Bool) (path : Text) (tree : Tree) → RaisesOs (mkdir denied path tree).0
unfolding mkdir
mkdir-RaisesOs denied path tree = mkdir_loop-RaisesOs denied (parents path ++ path ∷ []) tree

atomic_write-RaisesOs :
    (fault : Fault) (name path : Text) (content : Bytes) (mode : ℕ) (tree : Tree)
    → RaisesOs (atomic_write fault name path content mode tree).0
unfolding atomic_write
atomic_write-RaisesOs at_mkstemp name path content mode tree = refl
atomic_write-RaisesOs at_write name path content mode tree = refl
atomic_write-RaisesOs at_replace name path content mode tree = refl
atomic_write-RaisesOs no_fault name path content mode tree =
    elim (Bool-cases (is_directory tree path)) [
      | inl e ↦ rw (e, atomic_write) refl
      | inr e ↦ rw (e, atomic_write) tt
    ]

write_contents-RaisesOs :
    (host : Host) (target : Text) (contents : Dict Bytes) (tree : Tree)
    → RaisesOs (write_contents host target contents tree).0
unfolding write_contents
write_contents-RaisesOs host target [] tree = tt
write_contents-RaisesOs host target ((name, content) ∷ contents) tree =
    let path = join target name in
    then_RaisesOs
      (atomic_write (host.fault path) (host.fresh path) path content (mode_of name) tree) _
      (atomic_write-RaisesOs (host.fault path) (host.fresh path) path content (mode_of name) tree)
      (write_contents-RaisesOs host target contents)

RaisesOs-ne-value_error : (r : Result (Unit {0})) (m : Text) → RaisesOs r → r ≢ err (value_error m)
RaisesOs-ne-value_error (ok _) m h e = cc
RaisesOs-ne-value_error (err e') m h e = cc

then_refuses :
    (o : Outcome (Unit {0})) (next : Tree → Outcome (Unit {0})) (m : Text)
    → RaisesOs o.0
    → (o then next).0 ≡ err (value_error m)
    → (next o.1).0 ≡ err (value_error m)
then_refuses (ok _, tree) next m h r = r
then_refuses (err e, tree) next m h r = cc

write_launcher_refuses :
    (host : Host) (target launcher : Text) (tree : Tree) (m : Text)
    → (write_launcher host target launcher tree).0 ≡ err (value_error m)
    → host.encode (desktop_entry target) ≡ err (value_error m)
unfolding write_launcher
write_launcher_refuses host target launcher tree m h =
    elim (Result-cases (host.encode (desktop_entry target))) [
      | inl (entry, e) ↦ absurd (
          RaisesOs-ne-value_error _ m
            (atomic_write-RaisesOs (host.fault launcher) (host.fresh launcher) launcher entry 0x1A4
              tree)
            (rw (e, write_launcher) at h))
      | inr (x, e) ↦ let r = rw (e, write_launcher) at h in cc
    ]

install_refuses :
    (host : Host) (target applications launcher : Text) (contents : Dict Bytes) (tree : Tree)
    (m : Text)
    → (install host target applications launcher contents tree).0 ≡ err (value_error m)
    → host.encode (desktop_entry target) ≡ err (value_error m)
unfolding install
install_refuses host target applications launcher contents tree m h =
    let dirs = mkdir host.denied target tree then mkdir host.denied applications in
    write_launcher_refuses host target launcher _ m (
      then_refuses (dirs then write_contents host target contents)
        (write_launcher host target launcher) m
        (then_RaisesOs dirs _
          (then_RaisesOs (mkdir host.denied target tree) _ (mkdir-RaisesOs host.denied target tree)
            (mkdir-RaisesOs host.denied applications))
          (write_contents-RaisesOs host target contents))
        h)

uninstall-RaisesOs :
    (removal : Removal) (target launcher : Text) (tree : Tree)
    → RaisesOs (uninstall removal target launcher tree).0
unfolding uninstall
uninstall-RaisesOs at_unlink target launcher tree = refl
uninstall-RaisesOs not_stopped target launcher tree = tt
uninstall-RaisesOs (at_rmtree part) target launcher tree =
    elim (Bool-cases (exists (unlink launcher tree) target)) [ inl e ↦ rw e refl | inr e ↦ rw e tt ]

perform_refuses :
    (host : Host) (action : Action) (source prefix : Text) (tree : Tree) (m : Text)
    → (perform host action source prefix tree).0 ≡ err (value_error m)
    → ((perform host action source prefix tree).1 ≡ tree)
      ⊎ ((action ≡ to_install)
          × (host.encode (desktop_entry (target_of prefix)) ≡ err (value_error m)))
unfolding perform
perform_refuses host to_uninstall source prefix tree m h = absurd (
    RaisesOs-ne-value_error _ m
      (uninstall-RaisesOs host.removal (target_of prefix) (launcher_of prefix) tree) h)
perform_refuses host to_install source prefix tree m h =
    elim (Result-cases (read_contents tree source installed_files)) [
      | inl (contents, e) ↦ inr (
        refl,
        install_refuses host (target_of prefix) (applications_of prefix) (launcher_of prefix)
            contents tree m (sym (ap (λ o. o.0) (perform_read host source prefix tree e)) ∙ h),
      )
      | inr (_, e) ↦ inl (ap (λ o. o.1) (perform_unread host source prefix tree e))
    ]

-- Where installing or removing raises `ValueError`, which is how the script refuses a path, a
-- directory or a launcher that is not its own, the tree is as it was; the one exception is the error
-- of encoding the launcher while installing, where the name of the directory is not valid Unicode.
pub manage_refuses :
    (host : Host) (action : Action) (source prefix : Text) (tree : Tree) (m : Text)
    → (manage host action source prefix tree).0 ≡ err (value_error m)
    → ((manage host action source prefix tree).1 ≡ tree)
      ⊎ ((action ≡ to_install)
          × (host.encode (desktop_entry (target_of prefix)) ≡ err (value_error m)))
manage_refuses host action source prefix tree m h =
    elim (Result-cases (checks host tree (target_of prefix) (launcher_of prefix))) [
      | inl (_, c) ↦
          let same = manage_passed host action source prefix tree c in
          elim (perform_refuses host action source prefix tree m (sym (ap (λ o. o.0) same) ∙ h)) [
            | inl left ↦ inl (ap (λ o. o.1) same ∙ left)
            | inr failed ↦ inr failed
          ]
      | inr (_, c) ↦ inl (ap (λ o. o.1) (manage_refused host action source prefix tree c))
    ]
