-- ===== src/Bench/Comparison/Reported.antt =====
-- What a report of the comparison contains.
use project_veil.Prelude.{
  ◌≡◌, refl, sym, ap, ◌∙◌, List, [], ◌∷◌, Option, none, some, Text, Dict, lookup, insert,
  lookup-insert, text_eq, text_eq_iff, ok, ok_injective, Result-cases, Bool-cases, inl, inr,
  if◌then◌else◌, All, subst,
}
use project_veil.Bench.Json.{Json}
use project_veil.Bench.Perf.{Numbers}
use project_veil.Bench.Comparison.{
  Row, Pair, pairs_loop, deltas, Entry, add_entry, metrics_loop, metric_names, modes_loop,
  comparison,
}
use project_veil.Bench.Comparison.Sound.{Sound, IsDelta, Sound-pairs_loop, All-deltas}

abbrev value_or : {V : Type 0} → V → Option V → V
value_or v (some w) = w
value_or v none = v

-- A property of the entries of a dict holds after an insertion that has it.
insert_keeps :
    {V : Type 0} (Q : Text → V → Type 0) (k : Text) (v : V) (d : Dict V)
    → Q k v
    → ((j : Text) (w : V) → lookup j d ≡ some w → Q j w)
    → (j : Text) (w : V) → lookup j (insert k v d) ≡ some w
    → Q j w
insert_keeps Q k v d q qs j w h = elim (Bool-cases (text_eq k j)) [
  | inl e ↦
      let here =
        sym (ap (λ b. if b then some v else lookup j d) e) ∙ sym (lookup-insert j k v d) ∙ h in
      subst (λ x. Q x w) ((text_eq_iff k j).0 e) (subst (Q k) (ap (value_or v) here) q)
  | inr e ↦
      qs j w (sym (ap (λ b. if b then some v else lookup j d) e) ∙ sym (lookup-insert j k v d) ∙ h)
]

module _ (P : Row → Type 0) (nums : Numbers) (median : List Json → Json) where
  -- The median of deltas that all stand for pairs of runs.
  abbrev pub IsReport : Text → Text → Entry → Type 0
  IsReport mode metric e =
      (e.paired_median_percent ≡ median e.pairs_percent)
      × All (IsDelta P nums mode metric) e.pairs_percent

  abbrev AreReports : Text → Dict Entry → Type 0
  AreReports mode entries =
      (metric : Text) (e : Entry) → lookup metric entries ≡ some e → IsReport mode metric e

  AreReports-add_entry :
      (mode metric : Text) (ds : List Json) (result : Dict Entry)
      → All (IsDelta P nums mode metric) ds
      → AreReports mode result
      → AreReports mode (add_entry median metric ds result)
  AreReports-add_entry mode metric [] result gs rs = rs
  AreReports-add_entry mode metric (d ∷ ds) result gs rs =
      insert_keeps (IsReport mode) metric _ result (refl, gs) rs

  AreReports-metrics_loop :
      (mode : Text) (ps : List Pair) (metrics : List Text) (result entries : Dict Entry)
      → All (Sound P mode) ps
      → AreReports mode result
      → metrics_loop nums median ps metrics result ≡ ok entries
      → AreReports mode entries
  unfolding metrics_loop
  AreReports-metrics_loop mode ps [] result entries ss rs h =
      subst (AreReports mode) (ok_injective h) rs
  AreReports-metrics_loop mode ps (metric ∷ metrics) result entries ss rs h =
      elim (Result-cases (deltas nums metric ps)) [
        | inl (ds, e) ↦
            let h1 = rw e at h in
            AreReports-metrics_loop mode ps metrics (add_entry median metric ds result) entries ss
              (AreReports-add_entry mode metric ds result (All-deltas P mode nums metric ps ds ss e)
                rs)
              h1
        | inr (z, e) ↦ let h1 = rw e at h in cc
      ]

  no_entry : (mode : Text) → AreReports mode []
  unfolding lookup
  no_entry mode = λ metric e h. cc

  AreReports-modes_loop :
      (rows : List Row) (modes : List Text) (result report : Dict (Dict Entry))
      → All P rows
      → ((mode : Text) (entries : Dict Entry)
          → lookup mode result ≡ some entries
          → AreReports mode entries)
      → modes_loop nums median rows modes result ≡ ok report
      → (mode : Text) (entries : Dict Entry) → lookup mode report ≡ some entries
      → AreReports mode entries
  unfolding modes_loop
  AreReports-modes_loop rows [] result report ps rs h mode entries =
      subst (λ r. lookup mode r ≡ some entries → AreReports mode entries) (ok_injective h)
        (rs mode entries)
  AreReports-modes_loop rows (m ∷ modes) result report ps rs h mode entries =
      elim (Result-cases (metrics_loop nums median (pairs_loop m rows []) metric_names [])) [
        | inl (es, e) ↦
            let h1 = rw e at h in
            AreReports-modes_loop rows modes (insert m es result) report ps
              (insert_keeps AreReports m es result
                (AreReports-metrics_loop m (pairs_loop m rows []) metric_names [] es
                  (Sound-pairs_loop P m rows [] ps tt) (no_entry m) e)
                rs)
              h1 mode entries
        | inr (z, e) ↦ let h1 = rw e at h in cc
      ]

-- Of a comparison that returns, each reported metric of a mode has the median of its deltas, and each
-- delta is the change in percent, in floating-point arithmetic, from a run before to a run after that
-- are rows of that mode and of the same pair, each with its value of the metric. `P` holds of all rows,
-- and so of those runs.
pub comparison_reports :
    (P : Row → Type 0) (nums : Numbers) (median : List Json → Json) (rows : List Row)
    (modes : List Text) (report : Dict (Dict Entry))
    → All P rows
    → comparison nums median rows modes ≡ ok report
    → (mode metric : Text) (entries : Dict Entry) (e : Entry) → lookup mode report ≡ some entries
    → lookup metric entries ≡ some e
    → (e.paired_median_percent ≡ median e.pairs_percent)
      × All (IsDelta P nums mode metric) e.pairs_percent
unfolding comparison lookup
comparison_reports P nums median rows modes report ps h mode metric entries e k l =
    AreReports-modes_loop P nums median rows modes [] report ps (λ _ _ n. cc) h mode entries k
      metric e l
