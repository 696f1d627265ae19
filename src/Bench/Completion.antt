-- ===== src/Bench/Completion.antt =====
-- The line `stopped accepted=A rejected=R completed=C failed=F` of a proxy's log, which four scripts
-- look for with the same regular expression.
pub mod Printed
use project_veil.Prelude.{
  ℕ, ◌+◌, ◌*◌, ◌-◌, Bool, true, false, ◌&&◌, List, [], ◌∷◌, Option, none, some, Text, codes, leb,
  ltb, ◌==◌, if◌then◌else◌,
}
use project_veil.Bench.Json.{Json, num, dict}

pub record Stats : Type 0 where
  pub accepted : ℕ
  pub rejected : ℕ
  pub completed : ℕ
  pub failed : ℕ

-- The text behind a literal.
unfoldable pub behind : Text → Text → Option Text
behind [] s = some s
behind (c ∷ p) [] = none
behind (c ∷ p) (d ∷ s) = if c == d then behind p s else none

-- The zeros of the decimal digits (category Nd) of Unicode 15.0, each followed by one to nine.
abbrev pub decimal_zeros : List ℕ
decimal_zeros =
    0x30 ∷ 0x660 ∷ 0x6F0 ∷ 0x7C0 ∷ 0x966 ∷ 0x9E6 ∷ 0xA66 ∷ 0xAE6 ∷ 0xB66 ∷ 0xBE6 ∷ 0xC66 ∷ 0xCE6
    ∷ 0xD66 ∷ 0xDE6 ∷ 0xE50 ∷ 0xED0 ∷ 0xF20 ∷ 0x1040 ∷ 0x1090 ∷ 0x17E0 ∷ 0x1810 ∷ 0x1946 ∷ 0x19D0
    ∷ 0x1A80 ∷ 0x1A90 ∷ 0x1B50 ∷ 0x1BB0 ∷ 0x1C40 ∷ 0x1C50 ∷ 0xA620 ∷ 0xA8D0 ∷ 0xA900 ∷ 0xA9D0
    ∷ 0xA9F0 ∷ 0xAA50 ∷ 0xABF0 ∷ 0xFF10 ∷ 0x104A0 ∷ 0x10D30 ∷ 0x11066 ∷ 0x110F0 ∷ 0x11136 ∷ 0x111D0
    ∷ 0x112F0 ∷ 0x11450 ∷ 0x114D0 ∷ 0x11650 ∷ 0x116C0 ∷ 0x11730 ∷ 0x118E0 ∷ 0x11950 ∷ 0x11C50
    ∷ 0x11D50 ∷ 0x11DA0 ∷ 0x11F50 ∷ 0x16A60 ∷ 0x16AC0 ∷ 0x16B50 ∷ 0x1D7CE ∷ 0x1D7D8 ∷ 0x1D7E2
    ∷ 0x1D7EC ∷ 0x1D7F6 ∷ 0x1E140 ∷ 0x1E2F0 ∷ 0x1E4F0 ∷ 0x1E950 ∷ 0x1FBF0 ∷ []

unfoldable pub digit_in : List ℕ → ℕ → Option ℕ
digit_in [] c = none
digit_in (z ∷ zs) c =
    let rest = digit_in zs c in if leb z c && ltb c (z + 10) then some (c - z) else rest

-- The value of a character that `\d` matches, as `int` reads it.
unfoldable pub digit_of : ℕ → Option ℕ
unfolding digit_in
digit_of = digit_in decimal_zeros

unfoldable pub is_digit : ℕ → Bool
unfolding digit_of
is_digit c = elim (digit_of c) [ some _ ↦ true | none ↦ false ]

unfoldable pub digits : ℕ → Text → ℕ × Text
unfolding digit_of
digits n [] = (n, [])
digits n (c ∷ s) = elim (digit_of c) [ some d ↦ digits (n * 10 + d) s | none ↦ (n, c ∷ s) ]

-- `(\d+)`: no number is followed by a digit, since each literal begins with another character.
unfoldable pub number : Text → Option (ℕ × Text)
unfolding digits is_digit
number [] = none
number (c ∷ s) = if is_digit c then some (digits 0 (c ∷ s)) else none

infixl 5 ◌>>=◌
abbrev pub ◌>>=◌ : {A B : Type 0} → Option A → (A → Option B) → Option B
none >>= f = none
some a >>= f = f a

unfoldable pub match_here : Text → Option Stats
unfolding behind number
match_here s = do
  s0 ← behind (codes "stopped accepted=") s
  (accepted, s1) ← number s0
  s2 ← behind (codes " rejected=") s1
  (rejected, s3) ← number s2
  s4 ← behind (codes " completed=") s3
  (completed, s5) ← number s4
  s6 ← behind (codes " failed=") s5
  (failed, s7) ← number s6
  some (record { accepted = accepted; rejected = rejected; completed = completed; failed = failed })

-- `re.search`: the leftmost match
unfoldable pub search_stats : Text → Option Stats
unfolding match_here
search_stats [] = match_here []
search_stats (c ∷ s) = elim (match_here (c ∷ s)) [ some m ↦ some m | none ↦ search_stats s ]

-- `dict(zip(("accepted", …), map(int, match.groups())))`
unfoldable pub stats_json : Stats → Json
stats_json m = dict (
    (codes "accepted", num m.accepted)
    ∷ (codes "rejected", num m.rejected)
    ∷ (codes "completed", num m.completed)
    ∷ (codes "failed", num m.failed)
    ∷ [])
