-- ===== src/Bench/Comparison/Sound.antt =====
-- What a delta of the comparison stands for.
use project_veil.Prelude.{
  ℕ, ◌≡◌, refl, sym, ap, ◌∙◌, true, false, List, [], ◌∷◌, Option, none, some, Text, codes, lookup,
  text_eq, text_eq_iff, ok, ok_injective, Result-cases, Bool-cases, inl, inr, arith, ◌==◌, All,
  subst,
}
use project_veil.Bench.Json.{Json, num}
use project_veil.Bench.Perf.{Numbers}
use project_veil.Bench.Comparison.{
  Row, Pair, put_row, add_row, is_paired, pairs_loop, delta, metric_delta, two_delta, pair_delta,
  add_delta, deltas,
}

-- A row of a mode and a group.
abbrev pub IsRun : (Row → Type 0) → Text → Text → ℕ → Row → Type 0
IsRun P mode group pair r = P r × (r.mode ≡ mode) × (r.group ≡ group) × (r.pair ≡ pair)

-- A delta of a metric: from two rows of one mode and one pair, one before and one after.
abbrev pub IsDelta : (Row → Type 0) → Numbers → Text → Text → Json → Type 0
IsDelta P nums mode metric d =
    (pair : ℕ) × (b : Row) × (a : Row) × (x : Json) × (y : Json) × (q : Json) × IsRun P mode
      (codes "before") pair b
    × IsRun P mode (codes "after") pair a
    × (lookup metric b.metrics ≡ some x)
    × (lookup metric a.metrics ≡ some y)
    × (nums.divide y x ≡ ok q)
    × (d ≡ nums.times (nums.minus q (num 1)) 100)

pub record Sound (P : Row → Type 0) (mode : Text) (p : Pair) : Type 0 where
  pub before : (b : Row) → p.before ≡ some b → IsRun P mode (codes "before") p.pair b
  pub after : (a : Row) → p.after ≡ some a → IsRun P mode (codes "after") p.pair a

abbrev row_or : Row → Option Row → Row
row_or r (some b) = b
row_or r none = r

is_paired-mode : (mode : Text) (r : Row) → is_paired mode r ≡ true → r.mode ≡ mode
unfolding is_paired
is_paired-mode mode r h = (text_eq_iff r.mode mode).0 (ground (arith, h))

is_paired-group :
    (mode : Text) (r : Row)
    → is_paired mode r ≡ true
    → text_eq r.group (codes "before") ≡ false
    → r.group ≡ codes "after"
unfolding is_paired
is_paired-group mode r h k = (text_eq_iff r.group (codes "after")).0 (ground (arith, h, k))

abbrev json_or : Json → Option Json → Json
json_or d (some e) = e
json_or d none = d

module _ (P : Row → Type 0) (mode : Text) where
  Sound-put_row :
      (r : Row) (p : Pair)
      → P r
      → is_paired mode r ≡ true
      → r.pair ≡ p.pair
      → Sound P mode p
      → Sound P mode (put_row r p)
  unfolding put_row
  Sound-put_row r p pr h e s = elim (Bool-cases (text_eq r.group (codes "before"))) [
    | inl k ↦ rw k (record {
      before = λ b m.
          subst (IsRun P mode (codes "before") p.pair) (ap (row_or r) m)
            (pr, is_paired-mode mode r h, (text_eq_iff r.group (codes "before")).0 k, e);
      after = s.after;
    })
    | inr k ↦ rw k (record {
      before = s.before;
      after = λ a m.
          subst (IsRun P mode (codes "after") p.pair) (ap (row_or r) m)
            (pr, is_paired-mode mode r h, is_paired-group mode r h k, e);
    })
  ]

  Sound-add_row :
      (r : Row) (ps : List Pair)
      → P r
      → is_paired mode r ≡ true
      → All (Sound P mode) ps
      → All (Sound P mode) (add_row r ps)
  unfolding add_row
  Sound-add_row r [] pr h ss =
      (Sound-put_row r _ pr h refl (record { before = λ b m. cc; after = λ a m. cc }), tt)
  Sound-add_row r (p ∷ ps) pr h (s, ss) = elim (Bool-cases (p.pair == r.pair)) [
    | inl k ↦ rw k (Sound-put_row r p pr h (ground (arith, k)) s, ss)
    | inr k ↦ rw k (s, Sound-add_row r ps pr h ss)
  ]

  pub Sound-pairs_loop :
      (rows : List Row) (ps : List Pair)
      → All P rows
      → All (Sound P mode) ps
      → All (Sound P mode) (pairs_loop mode rows ps)
  unfolding pairs_loop
  Sound-pairs_loop [] ps prs ss = ss
  Sound-pairs_loop (r ∷ rows) ps (pr, prs) ss = elim (Bool-cases (is_paired mode r)) [
    | inl k ↦ rw k (Sound-pairs_loop rows (add_row r ps) prs (Sound-add_row r ps pr k ss))
    | inr k ↦ rw k (Sound-pairs_loop rows ps prs ss)
  ]

  module _ (nums : Numbers) (metric : Text) where
    -- A delta, if there is one.
    abbrev IsDeltas : Option Json → Type 0
    IsDeltas o = (d : Json) → o ≡ some d → IsDelta P nums mode metric d

    IsDeltas-metric_delta :
        (p : Pair) (b a : Row) (x : Json) (oy : Option Json) (o : Option Json)
        → IsRun P mode (codes "before") p.pair b
        → IsRun P mode (codes "after") p.pair a
        → lookup metric b.metrics ≡ some x
        → lookup metric a.metrics ≡ oy
        → metric_delta nums metric x oy ≡ ok o
        → IsDeltas o
    unfolding metric_delta delta
    IsDeltas-metric_delta p b a x none o hb ha e f h = cc
    IsDeltas-metric_delta p b a x (some y) o hb ha e f h = λ d k.
        elim (Result-cases (nums.divide y x)) [
          | inl (q, g) ↦
              let h1 = rw g at h in
              (p.pair, b, a, x, y, q, hb, ha, e, f, g, ap (json_or d) (sym (ok_injective h1 ∙ k)))
          | inr (z, g) ↦ let h1 = rw g at h in cc
        ]

    IsDeltas-two_delta :
        (p : Pair) (b a : Row) (ox : Option Json) (o : Option Json)
        → IsRun P mode (codes "before") p.pair b
        → IsRun P mode (codes "after") p.pair a
        → lookup metric b.metrics ≡ ox
        → two_delta nums metric ox a ≡ ok o
        → IsDeltas o
    unfolding two_delta
    IsDeltas-two_delta p b a none o hb ha e h = λ d k. let h1 = ok_injective h ∙ k in cc
    IsDeltas-two_delta p b a (some x) o hb ha e h =
        IsDeltas-metric_delta p b a x (lookup metric a.metrics) o hb ha e refl h

    IsDeltas-pair_delta :
        (p : Pair) (ob oa : Option Row) (o : Option Json)
        → Sound P mode p
        → p.before ≡ ob
        → p.after ≡ oa
        → pair_delta nums metric ob oa ≡ ok o
        → IsDeltas o
    unfolding pair_delta
    IsDeltas-pair_delta p none oa o s e f h = λ d k. let h1 = ok_injective h ∙ k in cc
    IsDeltas-pair_delta p (some b) none o s e f h = λ d k. let h1 = ok_injective h ∙ k in cc
    IsDeltas-pair_delta p (some b) (some a) o s e f h =
        IsDeltas-two_delta p b a (lookup metric b.metrics) o (s.before b e) (s.after a f) refl h

    All-add_delta :
        (o : Option Json) (ds : List Json)
        → IsDeltas o
        → All (IsDelta P nums mode metric) ds
        → All (IsDelta P nums mode metric) (add_delta o ds)
    All-add_delta none ds g gs = gs
    All-add_delta (some d) ds g gs = (g d refl, gs)

    pub All-deltas :
        (ps : List Pair) (ds : List Json)
        → All (Sound P mode) ps
        → deltas nums metric ps ≡ ok ds
        → All (IsDelta P nums mode metric) ds
    unfolding deltas
    All-deltas [] ds ss h = subst (All (IsDelta P nums mode metric)) (ok_injective h) tt
    All-deltas (p ∷ ps) ds (s, ss) h =
        elim (Result-cases (pair_delta nums metric p.before p.after)) [
          | inl (o, e) ↦ elim (Result-cases (deltas nums metric ps)) [
            | inl (es, f) ↦
                let h1 = rw (e, f) at h in
                subst (All (IsDelta P nums mode metric)) (ok_injective h1) (
                  All-add_delta o es (IsDeltas-pair_delta p p.before p.after o s refl refl e)
                    (All-deltas ps es ss f))
            | inr (z, f) ↦ let h1 = rw (e, f) at h in cc
          ]
          | inr (z, e) ↦ let h1 = rw e at h in cc
        ]
