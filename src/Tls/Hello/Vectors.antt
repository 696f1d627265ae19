-- ===== src/Tls/Hello/Vectors.antt =====
-- `grease` and `words` of veil-core/scripts/reality_fingerprint.py.
use Prim.Native.Nat.{bit_and}
use project_veil.Prelude.{
  ℕ, ◌+◌, ◌*◌, ◌/◌, ◌%◌, ◌^◌, ◌<◌, ◌≡◌, refl, ap, ap₂, List, [], ◌∷◌, map, Bool, true, ◌&&◌, arith,
  Bytes, Result, ok, err, value_error, codes, length, from_bytes, ◌==◌, if◌then◌else◌, ==_iff,
  Bool-cases, table, table_at, ◌≢◌, ◌⊎◌, inl, inr, subst,
}

-- `0x0A0A if (v & 0x0F0F) == 0x0A0A and v >> 8 == v & 255 else v`
unfoldable pub grease : ℕ → ℕ
grease v = if bit_and v 0x0F0F == 0x0A0A && v / 2 ^ 8 == bit_and v 255 then 0x0A0A else v

-- `[grease(int.from_bytes(data[i : i + 2], "big")) for i in range(0, len(data), 2)]`
unfoldable pub words_loop : Bytes → List ℕ
unfolding grease
words_loop [] = []
words_loop (a ∷ []) = grease (from_bytes (a ∷ [])) ∷ []
words_loop (a ∷ b ∷ rest) = grease (from_bytes (a ∷ b ∷ [])) ∷ words_loop rest

unfoldable pub words : Bytes → Result (List ℕ)
unfolding words_loop
words wire =
    if length wire % 2 == 0
    then ok (words_loop wire)
    else err (value_error (codes "odd uint16 vector"))

reserved : ℕ → ℕ → Bool
reserved hi lo = hi == lo && lo % 16 == 10

row : ℕ → Bool
unfolding grease reserved table
row hi =
    table (λ lo. grease (hi * 256 + lo) == (if reserved hi lo then 0x0A0A else hi * 256 + lo)) 256

grease_table : table row 256 ≡ true
unfolding row
grease_table = refl

-- The sixteen values of RFC 8701: 0x0A0A, 0x1A1A, ..., 0xFAFA.
abbrev pub grease_value : ℕ → ℕ
grease_value k = (16 * k + 10) * 256 + (16 * k + 10)

grease_eq : (v : ℕ) → v < 65536 → grease v ≡ (if reserved (v / 256) (v % 256) then 0x0A0A else v)
unfolding row
grease_eq v h =
    let hi = v / 256 in
    let lo = v % 256 in
    let at_hi : row hi ≡ true = table_at row 256 grease_table hi (omega arith) in
    let split : hi * 256 + lo ≡ v = omega arith in
    let test : ℕ → Bool =
      λ x. grease (hi * 256 + x) == (if reserved hi x then 0x0A0A else hi * 256 + x) in
    let at_lo = (==_iff _ _).0 (table_at test 256 at_hi lo (omega arith)) in
    subst (λ x. grease x ≡ (if reserved hi lo then 0x0A0A else x)) split at_lo

-- A uint16 that is one of the sixteen values reserved for GREASE becomes 0x0A0A, and any other
-- uint16 stays as it is.
pub grease_lem :
    (v : ℕ)
    → v < 65536
    → ((k : ℕ) × (k < 16) × (v ≡ grease_value k) × (grease v ≡ 0x0A0A))
      ⊎ (((k : ℕ) → k < 16 → v ≢ grease_value k) × (grease v ≡ v))
unfolding reserved
grease_lem v h = elim (Bool-cases (reserved (v / 256) (v % 256))) [
  | inl yes_ ↦ let e = grease_eq v h in inl (v % 256 / 16, ground arith, ground arith, ground arith)
  | inr no_ ↦ let e = grease_eq v h in inr (λ k small e'. ground arith, ground arith)
]

-- Big-endian uint16 values.
abbrev pub be16 : List ℕ → Bytes
be16 [] = []
be16 (v ∷ vs) = (v / 256) ∷ (v % 256) ∷ be16 vs

words_loop-be16 : (vs : List ℕ) → words_loop (be16 vs) ≡ map grease vs
unfolding words_loop from_bytes
words_loop-be16 [] = refl
words_loop-be16 (v ∷ vs) =
    let e : (0 * 256 + v / 256) * 256 + v % 256 ≡ v = omega arith in
    ap₂ ◌∷◌ (ap grease e) (words_loop-be16 vs)

pub length-be16 : (vs : List ℕ) → length (be16 vs) ≡ 2 * length vs
length-be16 [] = refl
length-be16 (v ∷ vs) = omega (arith, length-be16 vs)

-- The big-endian encoding of a list of numbers is read back, each number normalised.
pub words-be16 : (vs : List ℕ) → words (be16 vs) ≡ ok (map grease vs)
unfolding words
words-be16 vs = ground (arith, length-be16 vs, words_loop-be16 vs)
