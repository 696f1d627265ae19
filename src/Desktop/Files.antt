-- ===== src/Desktop/Files.antt =====
-- The file tree that veil-desktop/scripts/install.py works on, and `atomic_write`.
pub mod Keeps
use project_veil.Prelude.{
  ℕ, ◌≡◌, Bool, true, false, not, ◌||◌, List, [], ◌∷◌, ◌++◌, map, Option, none, some, Bytes, Text,
  Error, Result, ok, err, os_error, codes, Dict, lookup, insert, text_eq, starts_with,
  if◌then◌else◌,
}

-- A symbolic link carries the content of the regular file that it leads to, if it does.
pub data Node : Type 0 where
  file : Bytes → ℕ → Node
  directory : Node
  symlink : Option Bytes → Node

-- Absolute paths without `.` and `..`, in one dict.
abbrev pub Tree : Type 0
Tree = Dict Node

-- What a call returns or raises, and the tree it leaves.
abbrev pub Outcome {ℓ} : Type ℓ → Type ℓ
Outcome A = Result A × Tree

infixl 5 ◌then◌
abbrev pub ◌then◌ : Outcome (Unit {0}) → (Tree → Outcome (Unit {0})) → Outcome (Unit {0})
(err e, tree) then next = (err e, tree)
(ok _, tree) then next = next tree

unfoldable pub keep_if {ℓ} : {V : Type ℓ} → (Text → Bool) → Dict V → Dict V
keep_if p [] = []
keep_if p ((k, v) ∷ d) = if p k then (k, v) ∷ keep_if p d else keep_if p d

-- `a / b`
unfoldable pub join : Text → Text → Text
join a b = a ++ (codes "/" ++ b)

unfoldable pub is_symlink : Tree → Text → Bool
is_symlink tree path = elim (lookup path tree) [ some (symlink _) ↦ true | _ ↦ false ]

-- `path.exists()` for a path that is no symbolic link
unfoldable pub exists : Tree → Text → Bool
exists tree path = elim (lookup path tree) [ none ↦ false | some _ ↦ true ]

unfoldable pub is_directory : Tree → Text → Bool
is_directory tree path = elim (lookup path tree) [ some directory ↦ true | _ ↦ false ]

unfoldable pub is_file : Tree → Text → Bool
is_file tree path = elim (lookup path tree) [
  | some (file _ _) ↦ true
  | some (symlink (some _)) ↦ true
  | _ ↦ false
]

unfoldable pub read_bytes : Tree → Text → Result Bytes
read_bytes tree path = elim (lookup path tree) [
  | some (file content _) ↦ ok content
  | some (symlink (some content)) ↦ ok content
  | _ ↦ err os_error
]

-- `path.unlink(missing_ok=True)`
unfoldable pub unlink : Text → Tree → Tree
unfolding keep_if
unlink path tree = keep_if (λ p. not (text_eq p path)) tree

-- The path and all that lies below it.
unfoldable pub under : Text → Text → Bool
unfolding join
under path p = text_eq p path || starts_with p (join path [])

unfoldable pub rmtree : Text → Tree → Tree
unfolding keep_if under
rmtree path tree = keep_if (λ p. not (under path p)) tree

-- What `rmtree` leaves where it stops at an error: of the path and all below it some entries.
unfoldable pub rmtree_part : (Text → Bool) → Text → Tree → Tree
unfolding keep_if under
rmtree_part left path tree = keep_if (λ p. not (under path p) || left p) tree

-- The parents of a path below the root, the outermost first: the parts before each `/`.
unfoldable pub parents_loop : Text → Text → List Text
parents_loop [] seen = []
parents_loop (c ∷ rest) [] = parents_loop rest (c ∷ [])
parents_loop (c ∷ rest) (s ∷ seen) =
    let more = parents_loop rest (s ∷ seen ++ c ∷ []) in
    if text_eq (c ∷ []) (codes "/") then (s ∷ seen) ∷ more else more

unfoldable pub parents : Text → List Text
unfolding parents_loop
parents path = parents_loop path []

-- `path.mkdir(parents=True, exist_ok=True)` on the path's parts, the outermost first; `denied` are
-- the directories that the system refuses to make.
unfoldable pub mkdir_loop : (Text → Bool) → List Text → Tree → Outcome (Unit {0})
mkdir_loop denied [] tree = (ok tt, tree)
mkdir_loop denied (part ∷ parts) tree = elim (lookup part tree) [
  | none ↦
      let rest = mkdir_loop denied parts (insert part directory tree) in
      if denied part then (err os_error, tree) else rest
  | some directory ↦ mkdir_loop denied parts tree
  | some (file _ _) ↦ (err os_error, tree)
  | some (symlink _) ↦ (err os_error, tree)
]

unfoldable pub mkdir : (Text → Bool) → Text → Tree → Outcome (Unit {0})
unfolding mkdir_loop parents
mkdir denied path tree = mkdir_loop denied (parents path ++ path ∷ []) tree

-- Where the system stops a removal, if anywhere; `rmtree` leaves some entries then.
pub data Removal : Type 0 where
  not_stopped at_unlink : Removal
  at_rmtree : (Text → Bool) → Removal

-- Which call of `atomic_write` the system refuses, if any.
pub data Fault : Type 0 where
  no_fault at_mkstemp at_write at_replace : Fault

-- `name` is the fresh name that `mkstemp` makes beside the path.
unfoldable pub atomic_write : Fault → Text → Text → Bytes → ℕ → Tree → Outcome (Unit {0})
unfolding unlink is_directory
atomic_write at_mkstemp name path content mode tree = (err os_error, tree)
atomic_write at_write name path content mode tree =
    (err os_error, unlink name (insert name (file [] 0x180) tree))
atomic_write at_replace name path content mode tree =
    (err os_error, unlink name (insert name (file content mode) tree))
atomic_write no_fault name path content mode tree =
    if is_directory tree path
    then (err os_error, unlink name (insert name (file content mode) tree))
    else (
      ok tt,
      unlink name
          (insert path (file content mode) (unlink name (insert name (file content mode) tree))),
    )
