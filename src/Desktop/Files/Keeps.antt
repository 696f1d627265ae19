-- ===== src/Desktop/Files/Keeps.antt =====
-- Which entries of the tree the calls leave alone.
use project_veil.Prelude.{
  ℕ, ◌≡◌, refl, sym, ap, ◌∙◌, Bool, true, false, not, List, [], ◌∷◌, ◌++◌, none, some, inl, inr,
  Bytes, Text, ok, err, codes, Dict, lookup, insert, lookup-insert, lookup-cons, Option-cases,
  text_eq, text_eq_iff, starts_with, if◌then◌else◌, arith, Bool-cases, append_assoc,
}
use project_veil.Desktop.Files.{
  Node, file, directory, symlink, Tree, Outcome, ◌then◌, keep_if, join, is_directory, unlink, under,
  mkdir_loop, Fault, no_fault, at_mkstemp, at_write, at_replace, atomic_write,
}

pub lookup-keep_if {ℓ} :
    {V : Type ℓ} (p : Text → Bool) (q : Text) (d : Dict V)
    → lookup q (keep_if p d) ≡ (if p q then lookup q d else none)
unfolding lookup keep_if
lookup-keep_if p q [] = elim (Bool-cases (p q)) [ inl e ↦ rw e | inr e ↦ rw e ]
lookup-keep_if p q ((k, v) ∷ d) = elim (Bool-cases (text_eq k q)) [
  | inl e ↦
      let same = ap p ((text_eq_iff k q).0 e) in
      ground (arith, lookup-keep_if p q d, same, lookup-cons q k v (keep_if p d))
  | inr e ↦ ground (arith, lookup-keep_if p q d, lookup-cons q k v (keep_if p d))
]

pub text_eq_swap : (s t : Text) → text_eq s t ≡ false → text_eq t s ≡ false
text_eq_swap s t h = ground (arith, text_eq_iff s t, text_eq_iff t s)

pub lookup-unlink :
    (name q : Text) (tree : Tree)
    → text_eq name q ≡ false
    → lookup q (unlink name tree) ≡ lookup q tree
unfolding unlink
lookup-unlink name q tree h =
    ground (arith, lookup-keep_if (λ p. not (text_eq p name)) q tree, text_eq_swap name q h)

pub lookup-insert_other :
    (name q : Text) (n : Node) (tree : Tree)
    → text_eq name q ≡ false
    → lookup q (insert name n tree) ≡ lookup q tree
lookup-insert_other name q n tree h = lookup-insert q name n tree ∙ rw h

-- A temporary file that is made and removed again.
lookup_made :
    (name q : Text) (n : Node) (tree : Tree)
    → text_eq name q ≡ false
    → lookup q (unlink name (insert name n tree)) ≡ lookup q tree
lookup_made name q n tree h =
    lookup-unlink name q (insert name n tree) h ∙ lookup-insert_other name q n tree h

pub starts_with-append : (p s : Text) → starts_with (p ++ s) p ≡ true
unfolding starts_with
starts_with-append [] s = refl
starts_with-append (c ∷ p) s = ground (arith, starts_with-append p s)

-- What lies in a directory is under it.
pub under-join : (path name : Text) → under path (join path name) ≡ true
unfolding under join
under-join path name =
    let e : join path name ≡ join path [] ++ name = sym (append_assoc path (codes "/") name) in
    let h : starts_with (join path name) (join path []) ≡ true =
      rw e (starts_with-append (join path []) name) in
    ground (arith, h)

pub lookup-atomic_write :
    (fault : Fault) (name path : Text) (content : Bytes) (mode : ℕ) (tree : Tree) (q : Text)
    → text_eq name q ≡ false
    → text_eq path q ≡ false
    → lookup q (atomic_write fault name path content mode tree).1 ≡ lookup q tree
unfolding atomic_write unlink
lookup-atomic_write at_mkstemp name path content mode tree q h k = refl
lookup-atomic_write at_write name path content mode tree q h k =
    lookup_made name q (file [] 0x180) tree h
lookup-atomic_write at_replace name path content mode tree q h k =
    lookup_made name q (file content mode) tree h
lookup-atomic_write no_fault name path content mode tree q h k =
    elim (Bool-cases (is_directory tree path)) [
      | inl e ↦ rw e (lookup_made name q (file content mode) tree h)
      | inr e ↦ rw e (
          lookup-unlink name q _ h
          ∙ lookup-insert_other path q (file content mode) _ k
          ∙ lookup_made name q (file content mode) tree h)
    ]

pub mkdir_loop_keeps :
    (denied : Text → Bool) (parts : List Text) (tree : Tree) (q : Text) (n : Node)
    → lookup q tree ≡ some n
    → lookup q (mkdir_loop denied parts tree).1 ≡ some n
unfolding mkdir_loop
mkdir_loop_keeps denied [] tree q n h = h
mkdir_loop_keeps denied (part ∷ parts) tree q n h = elim (Option-cases (lookup part tree)) [
  | inl e ↦ elim (Bool-cases (denied part)) [
    | inl shut ↦ rw (e, mkdir_loop, shut) h
    | inr free ↦
        rw (e, mkdir_loop, free)
          (mkdir_loop_keeps denied parts (insert part directory tree) q n
            (ground (arith, h, e, lookup-insert q part directory tree, text_eq_iff part q)))
  ]
  | inr (directory, e) ↦ rw (e, mkdir_loop) (mkdir_loop_keeps denied parts tree q n h)
  | inr (file _ _, e) ↦ rw (e, mkdir_loop) h
  | inr (symlink _, e) ↦ rw (e, mkdir_loop) h
]

pub then_keeps :
    (o : Outcome (Unit {0})) (next : Tree → Outcome (Unit {0})) (q : Text) (n : Node)
    → lookup q o.1 ≡ some n
    → ((tree : Tree) → lookup q tree ≡ some n → lookup q (next tree).1 ≡ some n)
    → lookup q (o then next).1 ≡ some n
then_keeps (ok _, tree) next q n h k = k tree h
then_keeps (err e, tree) next q n h k = h
