-- ===== src/Prelude/Texts.antt =====
-- Texts and byte strings as lists of code points, with the methods of Python's `str` and `bytes`.
use Prim.Native.Nat.{ℕ, zero, suc, ◌/◌, ◌%◌, ◌+◌, ◌*◌}
use Prim.Native.Char.{code}
use Prim.Native.String.{String}
use mathlib.Core.Path.{◌≡◌, refl, ap, sym, ◌∙◌}
use project_veil.Prelude.Lists.{all}
use mathlib.Core.Logic.{◌↔◌, inl, inr}
use mathlib.Core.Bool.{Bool, true, false, ◌&&◌, ◌||◌}
use mathlib.Core.List.{List, [], ◌∷◌, ◌++◌, foldl, reverse}
use native.Mathlib.Omega.{arith}
use project_veil.Prelude.Tests.{◌==◌, ltb, if◌then◌else◌, Bool-cases}

abbrev pub Bytes : Type 0
Bytes = List ℕ

abbrev pub Text : Type 0
Text = List ℕ

-- The code points of a literal.
abbrev pub codes : String → Text
codes String.[] = []
codes (String.◌∷◌ c s) = code c ∷ codes s

-- `s == t`
unfoldable pub text_eq : Text → Text → Bool
text_eq [] [] = true
text_eq [] (d ∷ t) = false
text_eq (c ∷ s) [] = false
text_eq (c ∷ s) (d ∷ t) = c == d && text_eq s t

pub text_eq_iff : (s t : Text) → (text_eq s t ≡ true) ↔ (s ≡ t)
unfolding text_eq
text_eq_iff [] [] = (λ h. refl, λ h. refl)
text_eq_iff [] (d ∷ t) = (λ h. cc, λ h. cc)
text_eq_iff (c ∷ s) [] = (λ h. cc, λ h. cc)
text_eq_iff (c ∷ s) (d ∷ t) = ground (arith, text_eq_iff s t)

pub text_eq_refl : (s : Text) → text_eq s s ≡ true
text_eq_refl s = (text_eq_iff s s).1 refl

-- `s.startswith(p)`
unfoldable pub starts_with : Text → Text → Bool
starts_with s [] = true
starts_with [] (c ∷ p) = false
starts_with (d ∷ s) (c ∷ p) = c == d && starts_with s p

-- `s.endswith(p)`
unfoldable pub ends_with : Text → Text → Bool
unfolding starts_with
ends_with s p = starts_with (reverse s) (reverse p)

-- `p in s`
unfoldable pub contains : Text → Text → Bool
unfolding starts_with
contains [] p = starts_with [] p
contains (c ∷ s) p = starts_with (c ∷ s) p || contains s p

-- `s in names`, for a tuple, list or set of texts
unfoldable pub mem_text : Text → List Text → Bool
unfolding text_eq
mem_text s [] = false
mem_text s (t ∷ ts) = text_eq s t || mem_text s ts

-- `int.from_bytes(b, "big")`
unfoldable pub from_bytes : Bytes → ℕ
from_bytes = foldl (λ n b. n * 256 + b) 0

-- `str(n)` for a natural number; the fuel `n` covers its digits.
unfoldable pub decimal_loop : ℕ → ℕ → Text
decimal_loop zero n = (48 + n) ∷ []
decimal_loop (suc fuel) n =
    let rest = decimal_loop fuel (n / 10) in
    if ltb n 10 then (48 + n) ∷ [] else rest ++ (48 + n % 10) ∷ []

unfoldable pub decimal : ℕ → Text
unfolding decimal_loop
decimal n = decimal_loop n n

-- `b.hex()`
hex_digit : ℕ → ℕ
hex_digit d = if ltb d 10 then 48 + d else 87 + d

unfoldable pub hex : Bytes → Text
unfolding hex_digit
hex [] = []
hex (b ∷ bs) = hex_digit (b / 16) ∷ hex_digit (b % 16) ∷ hex bs

-- `b.split(sep)` for a separator of one byte: the parts before and behind each `sep`.
split_loop : ℕ → Bytes → Bytes → List Bytes
split_loop sep [] part = part ∷ []
split_loop sep (b ∷ bs) part = elim (b == sep) [
  | true ↦ part ∷ split_loop sep bs []
  | false ↦ split_loop sep bs (part ++ b ∷ [])
]

unfoldable pub split_at : Bytes → ℕ → List Bytes
unfolding split_loop
split_at bs sep = split_loop sep bs []

pub mem_text-append :
    (s : Text) (xs ys : List Text) → mem_text s (xs ++ ys) ≡ (mem_text s xs || mem_text s ys)
unfolding mem_text
mem_text-append s [] ys = refl
mem_text-append s (x ∷ xs) ys = ground (arith, mem_text-append s xs ys)

-- `s <= t`, in the order of the code points
unfoldable pub text_leb : Text → Text → Bool
text_leb [] t = true
text_leb (c ∷ s) [] = false
text_leb (c ∷ s) (d ∷ t) = ltb c d || (c == d && text_leb s t)

-- `sorted(names)`
unfoldable pub insert_text : Text → List Text → List Text
unfolding text_leb
insert_text s [] = s ∷ []
insert_text s (t ∷ ts) = if text_leb s t then s ∷ t ∷ ts else t ∷ insert_text s ts

unfoldable pub sort_text : List Text → List Text
unfolding insert_text
sort_text [] = []
sort_text (s ∷ ss) = insert_text s (sort_text ss)

mem-insert_text :
    (r s : Text) (ts : List Text) → mem_text r (insert_text s ts) ≡ (text_eq r s || mem_text r ts)
unfolding insert_text mem_text
mem-insert_text r s [] = refl
mem-insert_text r s (t ∷ ts) = ground (arith, mem-insert_text r s ts)

-- Sorting neither adds nor drops a name.
pub mem-sort_text : (r : Text) (ss : List Text) → mem_text r (sort_text ss) ≡ mem_text r ss
unfolding sort_text mem_text
mem-sort_text r [] = refl
mem-sort_text r (s ∷ ss) =
    mem-insert_text r s (sort_text ss) ∙ ap (λ b. text_eq r s || b) (mem-sort_text r ss)

-- `a == b` for two sets of texts
unfoldable pub same_set : List Text → List Text → Bool
unfolding mem_text
same_set xs ys = all (λ x. mem_text x ys) xs && all (λ y. mem_text y xs) ys

all-mem_text_sound :
    (xs ys : List Text) (s : Text)
    → all (λ x. mem_text x ys) xs ≡ true
    → mem_text s xs ≡ true
    → mem_text s ys ≡ true
unfolding mem_text
all-mem_text_sound [] ys s h m = cc
all-mem_text_sound (x ∷ xs) ys s h m = elim (Bool-cases (text_eq s x)) [
  | inl e ↦ rw ((text_eq_iff s x).0 e) (ground arith)
  | inr e ↦ ground (arith, all-mem_text_sound xs ys s)
]

-- Two sets are equal only if they have the same elements.
pub same_set_sound :
    (xs ys : List Text) (s : Text) → same_set xs ys ≡ true → mem_text s xs ≡ mem_text s ys
unfolding same_set
same_set_sound xs ys s h = ground (arith, all-mem_text_sound xs ys s, all-mem_text_sound ys xs s)

mem_text-cons : (s x : Text) (xs : List Text) → mem_text s xs ≡ true → mem_text s (x ∷ xs) ≡ true
unfolding mem_text
mem_text-cons s x xs h = ground arith

mem_text_head : (x : Text) (xs : List Text) → mem_text x (x ∷ xs) ≡ true
unfolding mem_text
mem_text_head x xs = rw (text_eq_refl x)

all_intro :
    (p : Text → Bool) (xs : List Text)
    → ((s : Text) → mem_text s xs ≡ true → p s ≡ true)
    → all p xs ≡ true
all_intro p [] h = refl
all_intro p (x ∷ xs) h =
    rw (h x (mem_text_head x xs)) (all_intro p xs (λ s m. h s (mem_text-cons s x xs m)))

-- Two sets with the same elements are equal.
pub same_set_complete :
    (xs ys : List Text) → ((s : Text) → mem_text s xs ≡ mem_text s ys) → same_set xs ys ≡ true
unfolding same_set
same_set_complete xs ys h = rw (
  all_intro (λ x. mem_text x ys) xs (λ s m. sym (h s) ∙ m),
  all_intro (λ y. mem_text y xs) ys (λ s m. h s ∙ m),
)
