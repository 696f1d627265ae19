-- ===== src/Bench/Comparison.antt =====
-- `comparison` of veil-core/scripts/core_regression.py: what a change did to each metric, from pairs of
-- a run before and a run after it.
pub mod Sound
pub mod Reported
use project_veil.Prelude.{
  ℕ, ◌*◌, Bool, true, false, ◌&&◌, ◌||◌, List, [], ◌∷◌, Option, none, some, Text, Dict, codes,
  lookup, insert, text_eq, ◌==◌, Result, ok, err, key_error, ◌>>=◌, if◌then◌else◌,
}
use project_veil.Bench.Json.{Json, num}
use project_veil.Bench.Perf.{Numbers}

-- A row: `mode`, `group` and `pair`, and its measured values.
pub record Row : Type 0 where
  pub mode : Text
  pub group : Text
  pub pair : ℕ
  pub metrics : Dict Json

-- An entry of `pairs`.
pub record Pair : Type 0 where
  pub pair : ℕ
  pub before : Option Row
  pub after : Option Row

unfoldable pub put_row : Row → Pair → Pair
put_row r p =
    if text_eq r.group (codes "before")
    then record p { before = some r }
    else record p { after = some r }

-- `pairs.setdefault(row["pair"], {})[row["group"]] = row`
unfoldable pub add_row : Row → List Pair → List Pair
unfolding put_row
add_row r [] = put_row r (record { pair = r.pair; before = none; after = none }) ∷ []
add_row r (p ∷ ps) = if p.pair == r.pair then put_row r p ∷ ps else p ∷ add_row r ps

unfoldable pub is_paired : Text → Row → Bool
is_paired mode r =
    text_eq r.mode mode && (text_eq r.group (codes "before") || text_eq r.group (codes "after"))

unfoldable pub pairs_loop : Text → List Row → List Pair → List Pair
unfolding is_paired add_row
pairs_loop mode [] ps = ps
pairs_loop mode (r ∷ rs) ps = pairs_loop mode rs (if is_paired mode r then add_row r ps else ps)

-- `100 * (after / before - 1)`
unfoldable pub delta : Numbers → Json → Json → Result Json
delta nums before after =
    nums.divide after before >>= λ q. ok (nums.times (nums.minus q (num 1)) 100)

-- The metric's value before, and the one after where there is one.
unfoldable pub metric_delta : Numbers → Text → Json → Option Json → Result (Option Json)
unfolding delta
metric_delta nums metric x none = err (key_error metric)
metric_delta nums metric x (some y) = delta nums x y >>= λ d. ok (some d)

-- `metric in p["before"]`
unfoldable pub two_delta : Numbers → Text → Option Json → Row → Result (Option Json)
unfolding metric_delta
two_delta nums metric none a = ok none
two_delta nums metric (some x) a = metric_delta nums metric x (lookup metric a.metrics)

-- The change of a complete pair, where the run before has the metric.
unfoldable pub pair_delta : Numbers → Text → Option Row → Option Row → Result (Option Json)
unfolding two_delta
pair_delta nums metric none after = ok none
pair_delta nums metric (some b) none = ok none
pair_delta nums metric (some b) (some a) = two_delta nums metric (lookup metric b.metrics) a

abbrev pub add_delta : Option Json → List Json → List Json
add_delta none ds = ds
add_delta (some d) ds = d ∷ ds

unfoldable pub deltas : Numbers → Text → List Pair → Result (List Json)
unfolding pair_delta
deltas nums metric [] = ok []
deltas nums metric (p ∷ ps) = do
  d ← pair_delta nums metric p.before p.after
  ds ← deltas nums metric ps
  ok (add_delta d ds)

pub record Entry : Type 0 where
  pub paired_median_percent : Json
  pub pairs_percent : List Json

-- `if deltas: result[mode][metric] = …`
abbrev pub add_entry : (List Json → Json) → Text → List Json → Dict Entry → Dict Entry
add_entry median metric [] result = result
add_entry median metric (d ∷ ds) result =
    insert metric (record { paired_median_percent = median (d ∷ ds); pairs_percent = d ∷ ds })
      result

unfoldable pub metrics_loop :
    Numbers → (List Json → Json) → List Pair → List Text → Dict Entry → Result (Dict Entry)
unfolding deltas
metrics_loop nums median ps [] result = ok result
metrics_loop nums median ps (metric ∷ metrics) result = do
  ds ← deltas nums metric ps
  metrics_loop nums median ps metrics (add_entry median metric ds result)

abbrev pub metric_names : List Text
metric_names = codes "throughput" ∷ codes "work_per_cpu_ms" ∷ codes "p50_us" ∷ codes "p99_us" ∷ []

unfoldable pub modes_loop :
    Numbers
    → (List Json → Json)
    → List Row
    → List Text
    → Dict (Dict Entry)
    → Result (Dict (Dict Entry))
unfolding pairs_loop metrics_loop
modes_loop nums median rows [] result = ok result
modes_loop nums median rows (mode ∷ modes) result = do
  entries ← metrics_loop nums median (pairs_loop mode rows []) metric_names []
  modes_loop nums median rows modes (insert mode entries result)

-- `median` is the one of Python's library.
unfoldable pub comparison :
    Numbers → (List Json → Json) → List Row → List Text → Result (Dict (Dict Entry))
unfolding modes_loop
comparison nums median rows modes = modes_loop nums median rows modes []
