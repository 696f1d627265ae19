-- ===== src/Tls/Histogram.antt =====
-- `histogram` of veil-core/scripts/probe.py: a third walk over the records, with counts.
use project_veil.Prelude.{
  ℕ, zero, suc, ◌+◌, ◌≡◌, refl, ap, ◌∙◌, List, [], ◌∷◌, ◌++◌, arith, Bytes, Text, Dict, lookup,
  insert, codes, decimal, lookup-insert, length, take, ltb, leb, text_eq, text_eq_iff,
  if◌then◌else◌, none, some,
}
use project_veil.Tls.Record.{Shape, length_at, byte_at, sample_loop, sample_records}

pub record Counts : Type 0 where
  pub hist : Dict ℕ
  pub shapes : List Shape
  pub parsed : ℕ

-- `f"{typ}:{n}"`
unfoldable pub key : ℕ → ℕ → Text
key typ n = decimal typ ++ codes ":" ++ decimal n

-- `hist[k] += 1` on a `Counter`, which counts a missing key as 0
unfoldable pub bump : Text → Dict ℕ → Dict ℕ
bump k hist = insert k (elim (lookup k hist) [ none ↦ 1 | some c ↦ c + 1 ]) hist

unfoldable pub histogram_loop : ℕ → Bytes → Counts → Counts
unfolding bump key
histogram_loop zero wire c = c
histogram_loop (suc fuel) wire c =
    let i = c.parsed in
    let n = length_at wire i in
    let typ = byte_at wire i in
    let rest = histogram_loop fuel wire (record {
      hist = bump (key typ n) c.hist;
      shapes = c.shapes ++ (typ, n) ∷ [];
      parsed = i + (5 + n);
    }) in
    if leb (i + 5) (length wire) then (if ltb (length wire) (i + 5 + n) then c else rest) else c

pub record Histogram : Type 0 where
  pub record_histogram : Dict ℕ
  pub first_records : List Shape
  pub parsed_bytes : ℕ
  pub captured_bytes : ℕ

unfoldable pub histogram : Bytes → Histogram
unfolding histogram_loop
histogram wire =
    let c = histogram_loop (length wire) wire (record { hist = []; shapes = []; parsed = 0 }) in
    record {
      record_histogram = c.hist;
      first_records = take 24 c.shapes;
      parsed_bytes = c.parsed;
      captured_bytes = length wire;
    }

histogram_loop-sample_loop :
    (fuel : ℕ) (wire : Bytes) (c : Counts)
    → ((histogram_loop fuel wire c).shapes ≡ (sample_loop fuel wire c.parsed c.shapes).0)
      × ((histogram_loop fuel wire c).parsed ≡ (sample_loop fuel wire c.parsed c.shapes).1)
unfolding histogram_loop sample_loop
histogram_loop-sample_loop zero wire c = (refl, refl)
histogram_loop-sample_loop (suc fuel) wire c =
    let i = c.parsed in
    let n = length_at wire i in
    let typ = byte_at wire i in
    ground (
      arith,
      histogram_loop-sample_loop fuel wire (record {
        hist = bump (key typ n) c.hist;
        shapes = c.shapes ++ (typ, n) ∷ [];
        parsed = i + (5 + n);
      }),
    )

-- `hist[k]` of a `Counter`
pub count_of : Text → Dict ℕ → ℕ
count_of k hist = elim (lookup k hist) [ none ↦ 0 | some c ↦ c ]

-- How many of the shapes have this key.
pub count_key : Text → List Shape → ℕ
count_key k [] = 0
count_key k ((typ, n) ∷ shapes) = (if text_eq (key typ n) k then 1 else 0) + count_key k shapes

count_key-append :
    (k : Text) (xs ys : List Shape) → count_key k (xs ++ ys) ≡ count_key k xs + count_key k ys
unfolding count_key
count_key-append k [] ys = omega arith
count_key-append k ((typ, n) ∷ xs) ys = omega (arith, count_key-append k xs ys)

count_of-bump :
    (k j : Text) (d : Dict ℕ)
    → count_of k (bump j d) ≡ count_of k d + (if text_eq j k then 1 else 0)
unfolding bump count_of
count_of-bump k j d =
    ground (
      arith,
      lookup-insert k j (elim (lookup j d) [ none ↦ 1 | some c ↦ c + 1 ]) d,
      text_eq_iff j k,
    )

count_key_one :
    (k : Text) (typ n : ℕ) → count_key k ((typ, n) ∷ []) ≡ (if text_eq (key typ n) k then 1 else 0)
unfolding count_key
count_key_one k typ n = ground arith

histogram_loop-counts :
    (fuel : ℕ) (wire : Bytes) (c : Counts) (k : Text)
    → count_of k c.hist ≡ count_key k c.shapes
    → count_of k (histogram_loop fuel wire c).hist ≡ count_key k (histogram_loop fuel wire c).shapes
unfolding histogram_loop
histogram_loop-counts zero wire c k h = h
histogram_loop-counts (suc fuel) wire c k h =
    let i = c.parsed in
    let n = length_at wire i in
    let typ = byte_at wire i in
    let c' : Counts = record {
      hist = bump (key typ n) c.hist;
      shapes = c.shapes ++ (typ, n) ∷ [];
      parsed = i + (5 + n);
    } in
    let h' : count_of k c'.hist ≡ count_key k c'.shapes = omega (
      arith,
      count_of-bump k (key typ n) c.hist,
      count_key-append k c.shapes ((typ, n) ∷ []),
      count_key_one k typ n,
    ) in
    ground (arith, histogram_loop-counts fuel wire c' k h')

count_start : (k : Text) → count_of k [] ≡ count_key k []
unfolding count_of count_key lookup
count_start k = refl

-- `histogram` and the loop of `sample` walk the captured bytes alike: they stop at the same index,
-- and the first records of the one are the first 24 of the other. For every key, the histogram's
-- count is the number of the records that the loop of `sample` reports whose key it is.
pub histogram-sample_records :
    (wire : Bytes)
    → ((histogram wire).parsed_bytes ≡ (sample_records wire).1)
      × ((histogram wire).first_records ≡ take 24 (sample_records wire).0)
      × ((k : Text)
          → count_of k (histogram wire).record_histogram ≡ count_key k (sample_records wire).0)
unfolding histogram sample_records
histogram-sample_records wire =
    let start : Counts = record { hist = []; shapes = []; parsed = 0 } in
    let same = histogram_loop-sample_loop (length wire) wire start in
    (
      same.1,
      ap (take 24) same.0,
      λ k.
          histogram_loop-counts (length wire) wire start k (count_start k)
          ∙ ap (count_key k) same.0,
    )
