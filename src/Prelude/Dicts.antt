-- ===== src/Prelude/Dicts.antt =====
-- Python's `dict` with text keys, in insertion order.
use mathlib.Core.Path.{◌≡◌, refl, sym, subst}
use mathlib.Core.Bool.{true}
use mathlib.Core.Option
use mathlib.Core.Logic.{inl, inr}
use mathlib.Core.Option.{Option, none, some}
use project_veil.Prelude.Lists.{All}
use mathlib.Core.List.{List, [], ◌∷◌, map}
use native.Mathlib.Omega.{arith}
use project_veil.Prelude.Tests.{if◌then◌else◌, Bool-cases}
use project_veil.Prelude.Texts.{Text, text_eq, text_eq_iff, mem_text}

abbrev pub Dict {ℓ} : Type ℓ → Type ℓ
Dict V = List (Text × V)

module _ {ℓ} {V : Type ℓ} where
  -- `d.get(k)`
  unfoldable pub lookup : Text → Dict V → Option V
  unfolding text_eq
  lookup k [] = none
  lookup k ((j, v) ∷ d) = if text_eq j k then some v else lookup k d

  -- `d[k] = v`
  unfoldable pub insert : Text → V → Dict V → Dict V
  unfolding text_eq
  insert k v [] = (k, v) ∷ []
  insert k v ((j, w) ∷ d) = if text_eq j k then (j, v) ∷ d else (j, w) ∷ insert k v d

  pub lookup-cons :
      (k j : Text) (v : V) (d : Dict V)
      → lookup k ((j, v) ∷ d) ≡ (if text_eq j k then some v else lookup k d)
  unfolding lookup
  lookup-cons k j v d = refl

  pub lookup-insert :
      (k j : Text) (v : V) (d : Dict V)
      → lookup k (insert j v d) ≡ (if text_eq j k then some v else lookup k d)
  unfolding lookup insert
  lookup-insert k j v [] = refl
  lookup-insert k j v ((i, w) ∷ d) =
      ground (arith, lookup-insert k j v d, text_eq_iff i j, text_eq_iff i k, text_eq_iff j k)

-- A dict that a comprehension makes of distinct or equal names, `{name: f(name) for name in names}`.
pub lookup-map {ℓ} :
    {V : Type ℓ} (f : Text → V) (n : Text) (names : List Text)
    → mem_text n names ≡ true
    → lookup n (map (λ name. (name, f name)) names) ≡ some (f n)
unfolding lookup mem_text
lookup-map f n [] h = cc
lookup-map f n (m ∷ names) h =
    ground (arith, lookup-map f n names, text_eq_iff n m, text_eq_iff m n)

-- `{k: f(v) for k, v in d.items()}`
pub lookup-map_values {ℓ κ} :
    {V : Type ℓ} {W : Type κ} (f : V → W) (n : Text) (d : Dict V)
    → lookup n (map (λ (k, v). (k, f v)) d) ≡ Option.map f (lookup n d)
unfolding lookup
lookup-map_values f n [] = refl
lookup-map_values f n ((k, v) ∷ d) = elim (Bool-cases (text_eq k n)) [
  | inl e ↦ rw e
  | inr e ↦ rw e (lookup-map_values f n d)
]

pub All-mem_text {ℓ} :
    (P : Text → Type ℓ) (s : Text) (names : List Text) → mem_text s names ≡ true → All P names → P s
unfolding mem_text
All-mem_text P s [] h _ = cc
All-mem_text P s (t ∷ names) h (p, ps) = elim (Bool-cases (text_eq s t)) [
  | inl e ↦ subst P (sym ((text_eq_iff s t).0 e)) p
  | inr e ↦ All-mem_text P s names (rw e at h) ps
]
