-- ===== src/Desktop/Install/Contents.antt =====
-- What reading the input files and writing them leave in the tree.
use project_veil.Prelude.{
  ℕ, ◌≡◌, refl, sym, ap, ◌∙◌, true, false, List, [], ◌∷◌, ◌++◌, some, inl, inr, ◌⊎◌, Bytes, Text,
  ok, err, codes, Dict, lookup, lookup-insert, text_eq, text_eq_iff, text_eq_refl, mem_text, arith,
  Bool-cases, Result-cases, ok_injective, subst, >>=-eq-ok, if◌then◌else◌,
}
use project_veil.Desktop.Files.{
  file, Tree, Outcome, ◌then◌, join, is_directory, read_bytes, Fault, no_fault, at_mkstemp,
  at_write, at_replace, atomic_write,
}
use project_veil.Desktop.Files.Keeps.{lookup-unlink, lookup-atomic_write}
use project_veil.Desktop.Install.{Host, read_contents, write_contents, mode_of}
use project_veil.Desktop.Install.Safety.{read_contents_missing, text_eq-append}

pub then_returned :
    (o : Outcome (Unit {0})) (next : Tree → Outcome (Unit {0}))
    → (o then next).0 ≡ ok tt
    → (o.0 ≡ ok tt) × ((next o.1).0 ≡ ok tt) × ((o then next).1 ≡ (next o.1).1)
then_returned (ok _, tree) next h = (refl, h, refl)
then_returned (err e, tree) next h = cc

pub atomic_write_returned :
    (fault : Fault) (name path : Text) (content : Bytes) (mode : ℕ) (tree : Tree)
    → text_eq name path ≡ false
    → (atomic_write fault name path content mode tree).0 ≡ ok tt
    → lookup path (atomic_write fault name path content mode tree).1 ≡ some (file content mode)
unfolding atomic_write
atomic_write_returned at_mkstemp name path content mode tree h k = cc
atomic_write_returned at_write name path content mode tree h k = cc
atomic_write_returned at_replace name path content mode tree h k = cc
atomic_write_returned no_fault name path content mode tree h k =
    elim (Bool-cases (is_directory tree path)) [
      | inl e ↦ let k' = rw e at k in cc
      | inr e ↦
          rw (e, atomic_write)
            (lookup-unlink name path _ h
              ∙ lookup-insert path path (file content mode) _
              ∙ rw (text_eq_refl path))
    ]

-- The contents are those of the input files.
abbrev pub AreRead : Tree → Text → Dict Bytes → Type 0
AreRead tree source [] = Unit
AreRead tree source ((name, content) ∷ contents) =
    (read_bytes tree (join source name) ≡ ok content) × AreRead tree source contents

pub names_of : Dict Bytes → List Text
names_of [] = []
names_of ((name, _) ∷ contents) = name ∷ names_of contents

text_eq-join : (a s t : Text) → text_eq (join a s) (join a t) ≡ text_eq s t
unfolding join text_eq
text_eq-join a s t = text_eq-append a (codes "/" ++ s) (codes "/" ++ t)

-- One write of `write_contents`.
write_one : Host → Text → Text → Bytes → Tree → Outcome (Unit {0})
write_one host target name content =
    atomic_write (host.fault (join target name)) (host.fresh (join target name)) (join target name)
      content (mode_of name)

module _ (host : Host) (target source name : Text) (start : Tree) (content : Bytes)
    (made : (p : Text) → text_eq (host.fresh p) (join target name) ≡ false)
    (here : read_bytes start (join source name) ≡ ok content) where
  unfoldable pub Holds : Tree → Type 0
  Holds tree = lookup (join target name) tree ≡ some (file content (mode_of name))

  write_one-same :
      (c : Bytes) (tree : Tree)
      → read_bytes start (join source name) ≡ ok c
      → (write_one host target name c tree).0 ≡ ok tt
      → Holds (write_one host target name c tree).1
  unfolding write_one Holds
  write_one-same c tree r w =
      let path = join target name in
      atomic_write_returned (host.fault path) (host.fresh path) path c (mode_of name) tree
        (made path) w
      ∙ ap (λ x. some (file x (mode_of name))) (ok_injective (sym r ∙ here))

  write_one-Holds :
      (k : Text) (c : Bytes) (tree : Tree)
      → read_bytes start (join source k) ≡ ok c
      → (write_one host target k c tree).0 ≡ ok tt
      → (text_eq k name ≡ true) ⊎ Holds tree
      → Holds (write_one host target k c tree).1
  unfolding write_one Holds
  write_one-Holds k c tree r w h = elim (Bool-cases (text_eq k name)) [
    | inl e ↦
        subst
          (λ x.
            read_bytes start (join source x) ≡ ok c
            → (write_one host target x c tree).0 ≡ ok tt
            → Holds (write_one host target x c tree).1)
          (sym ((text_eq_iff k name).0 e)) (write_one-same c tree) r w
    | inr e ↦ elim h [
      | inl e' ↦ cc
      | inr there ↦
          let path = join target k in
          lookup-atomic_write (host.fault path) (host.fresh path) path c (mode_of k) tree
            (join target name) (made path) (text_eq-join target k name ∙ e)
          ∙ there
    ]
  ]

  pub write_contents-Holds :
      (contents : Dict Bytes) (tree : Tree)
      → AreRead start source contents
      → (write_contents host target contents tree).0 ≡ ok tt
      → (mem_text name (names_of contents) ≡ true) ⊎ Holds tree
      → Holds (write_contents host target contents tree).1
  unfolding write_contents mem_text names_of write_one Holds
  write_contents-Holds [] tree _ w (inl m) = cc
  write_contents-Holds [] tree _ w (inr h) = h
  write_contents-Holds ((k, c) ∷ contents) tree (r, rs) w h =
      let (first, others, same) =
        then_returned (write_one host target k c tree) (write_contents host target contents) w in
      let left = (write_one host target k c tree).1 in
      let go : ((text_eq k name ≡ true) ⊎ Holds tree)
          → Holds (write_contents host target contents left).1 =
        λ g.
          write_contents-Holds contents left rs others (inr (write_one-Holds k c tree r first g)) in
      ap (lookup (join target name)) same ∙ (elim h [
        | inr there ↦ go (inr there)
        | inl m ↦ elim (Bool-cases (text_eq k name)) [
          | inl e ↦ go (inl e)
          | inr e ↦
              write_contents-Holds contents left rs others
                (inl (ground (arith, m, e, text_eq_iff k name, text_eq_iff name k)))
        ]
      ])

pub read_contents-AreRead :
    (tree : Tree) (source : Text) (names : List Text) (contents : Dict Bytes)
    → read_contents tree source names ≡ ok contents
    → AreRead tree source contents × (names_of contents ≡ names)
unfolding read_contents names_of
read_contents-AreRead tree source [] contents h =
    subst (λ d. AreRead tree source d × (names_of d ≡ [])) (ok_injective h) (tt, refl)
read_contents-AreRead tree source (name ∷ names) contents h =
    let (content, h1, k) = >>=-eq-ok (read_bytes tree (join source name)) _ h in
    let (others, h2, k2) = >>=-eq-ok (read_contents tree source names) _ k in
    let (r, e) = read_contents-AreRead tree source names others h2 in
    let same = ok_injective k2 in
    subst (λ d. AreRead tree source d × (names_of d ≡ name ∷ names)) same
      ((h1, r), ap (λ x. name ∷ x) e)

pub read_contents_each :
    (tree : Tree) (source name : Text) (names : List Text) (contents : Dict Bytes)
    → read_contents tree source names ≡ ok contents
    → mem_text name names ≡ true
    → (content : Bytes) × (read_bytes tree (join source name) ≡ ok content)
read_contents_each tree source name names contents h m =
    elim (Result-cases (read_bytes tree (join source name))) [
      | inl found ↦ found
      | inr (e, f) ↦ let (e', g) = read_contents_missing tree source name names e m f in cc
    ]
