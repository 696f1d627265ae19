-- ===== src/Desktop/Install/Safety.antt =====
-- What installing and removing leave alone, and what they leave behind.
use project_veil.Prelude.{
  ◌≡◌, refl, sym, ap, ◌∙◌, Bool, true, false, not, ◌||◌, List, [], ◌∷◌, ◌++◌, none, some, inl, inr,
  Bytes, Text, Error, ok, err, codes, Dict, lookup, text_eq, text_eq_iff, mem_text, if◌then◌else◌,
  arith, Bool-cases, Result-cases, append_assoc,
}
use project_veil.Desktop.Files.{
  Node, Tree, ◌then◌, join, exists, read_bytes, unlink, under, rmtree, rmtree_part, mkdir, parents,
  atomic_write, Removal, not_stopped, at_unlink, at_rmtree,
}
use project_veil.Desktop.Files.Keeps.{
  lookup-keep_if, lookup-unlink, under-join, lookup-atomic_write, mkdir_loop_keeps, then_keeps,
}
use project_veil.Desktop.Install.{
  Host, Action, to_install, to_uninstall, installed_files, read_contents, write_contents, mode_of,
  install, uninstall, perform, manage, checks, target_of, applications_of, launcher_of,
  desktop_entry, write_launcher,
}

-- A path that is not under another differs from all that are.
text_eq-under : (path p q : Text) → under path p ≡ true → under path q ≡ false → text_eq p q ≡ false
text_eq-under path p q h k = elim (Bool-cases (text_eq p q)) [
  | inl e ↦ let same = ap (under path) ((text_eq_iff p q).0 e) in ground (arith, same, h, k)
  | inr e ↦ e
]

mkdir_keeps :
    (denied : Text → Bool) (path : Text) (tree : Tree) (q : Text) (n : Node)
    → lookup q tree ≡ some n
    → lookup q (mkdir denied path tree).1 ≡ some n
unfolding mkdir
mkdir_keeps denied path tree q n h = mkdir_loop_keeps denied (parents path ++ path ∷ []) tree q n h

module _ (host : Host) (q : Text) (made : (p : Text) → text_eq (host.fresh p) q ≡ false) where
  write_contents_keeps :
      (target : Text) (contents : Dict Bytes) (tree : Tree) (n : Node)
      → under target q ≡ false
      → lookup q tree ≡ some n
      → lookup q (write_contents host target contents tree).1 ≡ some n
  unfolding write_contents
  write_contents_keeps target [] tree n h k = k
  write_contents_keeps target ((name, content) ∷ contents) tree n h k =
      let path = join target name in
      then_keeps (atomic_write (host.fault path) (host.fresh path) path content (mode_of name) tree)
        (write_contents host target contents) q n
        (lookup-atomic_write (host.fault path) (host.fresh path) path content (mode_of name) tree q
            (made path) (text_eq-under target path q (under-join target name) h)
          ∙ k)
        (λ left l. write_contents_keeps target contents left n h l)

  write_launcher_keeps :
      (target launcher : Text) (tree : Tree) (n : Node)
      → text_eq launcher q ≡ false
      → lookup q tree ≡ some n
      → lookup q (write_launcher host target launcher tree).1 ≡ some n
  unfolding write_launcher
  write_launcher_keeps target launcher tree n l k =
      elim (Result-cases (host.encode (desktop_entry target))) [
        | inl (entry, e) ↦
            rw (e, write_launcher)
              (lookup-atomic_write (host.fault launcher) (host.fresh launcher) launcher entry 0x1A4
                  tree q (made launcher) l
                ∙ k)
        | inr (x, e) ↦ rw (e, write_launcher) k
      ]

  install_keeps :
      (target applications launcher : Text) (contents : Dict Bytes) (tree : Tree) (n : Node)
      → under target q ≡ false
      → text_eq launcher q ≡ false
      → lookup q tree ≡ some n
      → lookup q (install host target applications launcher contents tree).1 ≡ some n
  unfolding install
  install_keeps target applications launcher contents tree n h l k =
      let dirs = mkdir host.denied target tree then mkdir host.denied applications in
      then_keeps (dirs then write_contents host target contents)
        (write_launcher host target launcher) q n
        (then_keeps dirs (write_contents host target contents) q n
          (then_keeps (mkdir host.denied target tree) (mkdir host.denied applications) q n
            (mkdir_keeps host.denied target tree q n k)
            (λ left m. mkdir_keeps host.denied applications left q n m))
          (λ left m. write_contents_keeps target contents left n h m))
        (λ left m. write_launcher_keeps target launcher left n l m)

lookup-rmtree :
    (path q : Text) (tree : Tree)
    → lookup q (rmtree path tree) ≡ (if not (under path q) then lookup q tree else none)
unfolding rmtree
lookup-rmtree path q tree = lookup-keep_if (λ p. not (under path p)) q tree

lookup-rmtree_part :
    (part : Text → Bool) (path q : Text) (tree : Tree)
    → under path q ≡ false
    → lookup q (rmtree_part part path tree) ≡ lookup q tree
unfolding rmtree_part
lookup-rmtree_part part path q tree h =
    lookup-keep_if (λ p. not (under path p) || part p) q tree ∙ rw h refl

uninstall_keeps :
    (removal : Removal) (target launcher q : Text) (tree : Tree)
    → under target q ≡ false
    → text_eq launcher q ≡ false
    → lookup q (uninstall removal target launcher tree).1 ≡ lookup q tree
unfolding uninstall
uninstall_keeps at_unlink target launcher q tree h l = refl
uninstall_keeps (at_rmtree part) target launcher q tree h l =
    elim (Bool-cases (exists (unlink launcher tree) target)) [
      | inl e ↦ rw e (
          lookup-rmtree_part part target q (unlink launcher tree) h
          ∙ lookup-unlink launcher q tree l)
      | inr e ↦ rw e (lookup-unlink launcher q tree l)
    ]
uninstall_keeps not_stopped target launcher q tree h l =
    elim (Bool-cases (exists (unlink launcher tree) target)) [
      | inl e ↦
          rw e
            (lookup-rmtree target q (unlink launcher tree) ∙ rw h (lookup-unlink launcher q tree l))
      | inr e ↦ rw e (lookup-unlink launcher q tree l)
    ]

perform_keeps :
    (host : Host) (action : Action) (source prefix : Text) (tree : Tree) (q : Text) (n : Node)
    → ((p : Text) → text_eq (host.fresh p) q ≡ false)
    → under (target_of prefix) q ≡ false
    → text_eq (launcher_of prefix) q ≡ false
    → lookup q tree ≡ some n
    → lookup q (perform host action source prefix tree).1 ≡ some n
unfolding perform
perform_keeps host to_uninstall source prefix tree q n made h l k =
    uninstall_keeps host.removal (target_of prefix) (launcher_of prefix) q tree h l ∙ k
perform_keeps host to_install source prefix tree q n made h l k =
    elim (Result-cases (read_contents tree source installed_files)) [
      | inl (contents, f) ↦
          rw (f, perform)
            (install_keeps host q made (target_of prefix) (applications_of prefix)
              (launcher_of prefix) contents tree n h l k)
      | inr (_, f) ↦ rw (f, perform) k
    ]

pub manage_passed :
    (host : Host) (action : Action) (source prefix : Text) (tree : Tree) {u : Unit {0}}
    → checks host tree (target_of prefix) (launcher_of prefix) ≡ ok u
    → manage host action source prefix tree ≡ perform host action source prefix tree
unfolding manage
manage_passed host action source prefix tree e = rw (e, manage) refl

pub manage_refused :
    (host : Host) (action : Action) (source prefix : Text) (tree : Tree) {e : Error}
    → checks host tree (target_of prefix) (launcher_of prefix) ≡ err e
    → manage host action source prefix tree ≡ (err e, tree)
unfolding manage
manage_refused host action source prefix tree e = rw (e, manage) refl

pub perform_read :
    (host : Host) (source prefix : Text) (tree : Tree) {contents : Dict Bytes}
    → read_contents tree source installed_files ≡ ok contents
    → perform host to_install source prefix tree
      ≡ install host (target_of prefix) (applications_of prefix) (launcher_of prefix) contents tree
unfolding perform
perform_read host source prefix tree e = rw (e, perform) refl

pub perform_unread :
    (host : Host) (source prefix : Text) (tree : Tree) {e : Error}
    → read_contents tree source installed_files ≡ err e
    → perform host to_install source prefix tree ≡ (err e, tree)
unfolding perform
perform_unread host source prefix tree e = rw (e, perform) refl

-- Whatever the action and its result, faults of the system included: an entry of the tree that is
-- neither the launcher nor the installation directory nor below it, and whose name is none that
-- `mkstemp` makes, stays as it was.
pub manage_keeps :
    (host : Host) (action : Action) (source prefix : Text) (tree : Tree) (q : Text) (n : Node)
    → ((p : Text) → text_eq (host.fresh p) q ≡ false)
    → under (target_of prefix) q ≡ false
    → text_eq (launcher_of prefix) q ≡ false
    → lookup q tree ≡ some n
    → lookup q (manage host action source prefix tree).1 ≡ some n
unfolding manage perform
manage_keeps host action source prefix tree q n made h l k =
    elim (Result-cases (checks host tree (target_of prefix) (launcher_of prefix))) [
      | inl (_, e) ↦ rw (e, manage) (perform_keeps host action source prefix tree q n made h l k)
      | inr (_, e) ↦ rw (e, manage) k
    ]

pub read_contents_missing :
    (tree : Tree) (source name : Text) (names : List Text) (e : Error)
    → mem_text name names ≡ true
    → read_bytes tree (join source name) ≡ err e
    → (e' : Error) × (read_contents tree source names ≡ err e')
unfolding read_contents mem_text
read_contents_missing tree source name [] e m h = cc
read_contents_missing tree source name (r ∷ names) e m h =
    elim (Result-cases (read_bytes tree (join source r))) [
      | inr (e', f) ↦ (e', rw f)
      | inl (content, f) ↦ elim (Bool-cases (text_eq name r)) [
        | inl g ↦
            let same = ap (λ x. read_bytes tree (join source x)) ((text_eq_iff name r).0 g) in cc
        | inr g ↦
            let (e', k) = read_contents_missing tree source name names e (ground (arith, m, g)) h in
            (e', rw (f, k))
      ]
    ]

-- An installation that lacks one of its seven input files, or cannot read it, changes nothing.
pub manage_missing :
    (host : Host) (source prefix name : Text) (tree : Tree) (e : Error)
    → mem_text name installed_files ≡ true
    → read_bytes tree (join source name) ≡ err e
    → (manage host to_install source prefix tree).1 ≡ tree
manage_missing host source prefix name tree e m h =
    let (e', k) = read_contents_missing tree source name installed_files e m h in
    elim (Result-cases (checks host tree (target_of prefix) (launcher_of prefix))) [
      | inl (_, c) ↦
          ap (λ o. o.1) (manage_passed host to_install source prefix tree c)
          ∙ ap (λ o. o.1) (perform_unread host source prefix tree k)
      | inr (_, c) ↦ ap (λ o. o.1) (manage_refused host to_install source prefix tree c)
    ]

pub text_eq-append : (p s t : Text) → text_eq (p ++ s) (p ++ t) ≡ text_eq s t
unfolding text_eq
text_eq-append [] s t = refl
text_eq-append (c ∷ p) s t = ground (arith, text_eq-append p s t)

launcher-target : (prefix : Text) → text_eq (launcher_of prefix) (target_of prefix) ≡ false
unfolding join text_eq
launcher-target prefix =
    let apps = codes "/share/applications" in
    let e = append_assoc prefix apps (codes "/net.projectveil.Veil.desktop") in
    ap (λ x. text_eq x (target_of prefix)) e ∙ text_eq-append prefix _ (codes "/lib/veil-desktop")

exists-unlink :
    (target launcher : Text) (tree : Tree)
    → text_eq launcher target ≡ false
    → exists tree target ≡ true
    → exists (unlink launcher tree) target ≡ true
unfolding exists
exists-unlink target launcher tree apart here =
    ap (λ o. elim o as (λ _. Bool) [ none ↦ false | some _ ↦ true ])
      (lookup-unlink launcher target tree apart)
    ∙ here

uninstall_removes :
    (removal : Removal) (target launcher q : Text) (tree : Tree)
    → (uninstall removal target launcher tree).0 ≡ ok tt
    → text_eq launcher target ≡ false
    → exists tree target ≡ true
    → (under target q || text_eq q launcher) ≡ true
    → lookup q (uninstall removal target launcher tree).1 ≡ none
unfolding uninstall unlink
uninstall_removes at_unlink target launcher q tree done apart here gone = cc
uninstall_removes (at_rmtree part) target launcher q tree done apart here gone =
    let still = exists-unlink target launcher tree apart here in
    let stopped = rw still at done in cc
uninstall_removes not_stopped target launcher q tree done apart here gone =
    rw (exists-unlink target launcher tree apart here) (
      ground (
        arith,
        lookup-rmtree target q (unlink launcher tree),
        lookup-keep_if (λ p. not (text_eq p launcher)) q tree,
      ))

-- Removing an installation that is there leaves nothing of it: no entry at its directory or below,
-- and no launcher.
pub manage_removes :
    (host : Host) (source prefix : Text) (tree : Tree) (q : Text)
    → (manage host to_uninstall source prefix tree).0 ≡ ok tt
    → exists tree (target_of prefix) ≡ true
    → (under (target_of prefix) q || text_eq q (launcher_of prefix)) ≡ true
    → lookup q (manage host to_uninstall source prefix tree).1 ≡ none
unfolding perform
manage_removes host source prefix tree q done here gone =
    elim (Result-cases (checks host tree (target_of prefix) (launcher_of prefix))) [
      | inl (_, c) ↦
          let same = manage_passed host to_uninstall source prefix tree c in
          ap (λ o. lookup q o.1) same
          ∙ uninstall_removes host.removal (target_of prefix) (launcher_of prefix) q tree
              (sym (ap (λ o. o.0) same) ∙ done) (launcher-target prefix) here gone
      | inr (_, c) ↦
          let r = ap (λ o. o.0) (manage_refused host to_uninstall source prefix tree c) in cc
    ]
