-- ===== src/Tls/Record.antt =====
-- TLS record framing as three scripts read it: `records` of reality_fingerprint.py, the loop of
-- `sample` and `histogram` of probe.py (veil-core/scripts).
pub mod Frames
pub mod Strict
pub mod Prefix
pub mod Agree
use project_veil.Prelude.{
  ℕ, zero, suc, ◌+◌, ◌≡◌, refl, Bool, List, [], ◌∷◌, ◌++◌, Bytes, Text, Result, ok, err,
  value_error, out_of_fuel, codes, length, drop, slice, get_elem?, Option, none, some, from_bytes,
  ltb, leb, if◌then◌else◌,
}

-- `(data[0], data[5 : 5 + n])`
abbrev pub Record : Type 0
Record = ℕ × Bytes

-- `int.from_bytes(data[i + 3 : i + 5], "big")`
unfoldable pub length_at : Bytes → ℕ → ℕ
length_at wire i = from_bytes (slice wire (i + 3) (i + 5))

-- `while data: …`; the first argument is the fuel.
unfoldable pub records_loop : ℕ → Bytes → List Record → Result (List Record)
unfolding length_at
records_loop fuel [] result = ok result
records_loop zero (typ ∷ wire) result = err out_of_fuel
records_loop (suc fuel) (typ ∷ wire) result =
    let n = length_at (typ ∷ wire) 0 in
    let rest =
      records_loop fuel (drop (5 + n) (typ ∷ wire))
        (result ++ (typ, slice (typ ∷ wire) 5 (5 + n)) ∷ []) in
    if ltb (length (typ ∷ wire)) 5
    then err (value_error (codes "truncated TLS header"))
    else if ltb (length (typ ∷ wire)) (5 + n)
    then err (value_error (codes "truncated TLS record"))
    else rest

-- Every round takes a byte at least, so the length is enough fuel.
unfoldable pub records : Bytes → Result (List Record)
unfolding records_loop
records wire = records_loop (length wire) wire []

-- `data[i]`, where the loop's test has put `i` in range
unfoldable pub byte_at : Bytes → ℕ → ℕ
byte_at wire i = elim (get_elem? wire i) [ none ↦ 0 | some b ↦ b ]

-- What the prefix readers append for a record: its type and its length.
abbrev pub Shape : Type 0
Shape = ℕ × ℕ

-- The record loop of `sample`: the shapes so far, and the index.
unfoldable pub sample_loop : ℕ → Bytes → ℕ → List Shape → List Shape × ℕ
unfolding length_at byte_at
sample_loop zero wire i lengths = (lengths, i)
sample_loop (suc fuel) wire i lengths =
    let n = length_at wire i in
    let rest = sample_loop fuel wire (i + (5 + n)) (lengths ++ (byte_at wire i, n) ∷ []) in
    if leb (i + 5) (length wire)
    then (if ltb (length wire) (i + 5 + n) then (lengths, i) else rest)
    else (lengths, i)

-- The record shapes that `sample` reports, with the count of bytes that they take up.
unfoldable pub sample_records : Bytes → List Shape × ℕ
unfolding sample_loop
sample_records wire = sample_loop (length wire) wire 0 []
