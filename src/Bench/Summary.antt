-- ===== src/Bench/Summary.antt =====
-- `summarize` of veil-core/scripts/benchmark.py: the rows by variant, mode and number of connections,
-- with the median of each measured value.
pub mod Total
use project_veil.Prelude.{
  ℕ, ◌+◌, Bool, true, false, ◌&&◌, ◌||◌, List, [], ◌∷◌, ◌++◌, Option, none, some, Text, Dict, codes,
  lookup, insert, text_eq, ltb, ◌==◌, length, Result, ok, err, key_error, or_raise, index_error,
  ◌>>=◌, if◌then◌else◌,
}
use project_veil.Bench.Json.{Json}

-- A row: `variant`, `mode` and `connections`, and its measured values.
pub record Row : Type 0 where
  pub variant : Text
  pub mode : Text
  pub connections : ℕ
  pub measured : Dict Json

-- An item of `groups`.
pub record Group : Type 0 where
  pub variant : Text
  pub mode : Text
  pub connections : ℕ
  pub rows : List Row

unfoldable pub is_of : Row → Group → Bool
is_of r g = text_eq g.variant r.variant && (text_eq g.mode r.mode && g.connections == r.connections)

-- `groups.setdefault((…), []).append(r)`
unfoldable pub add_row : Row → List Group → List Group
unfolding is_of
add_row r [] =
    (record { variant = r.variant; mode = r.mode; connections = r.connections; rows = r ∷ [] }) ∷ []
add_row r (g ∷ gs) =
    let rest = add_row r gs in
    if is_of r g then (record g { rows = g.rows ++ r ∷ [] }) ∷ gs else g ∷ rest

unfoldable pub groups_loop : List Row → List Group → List Group
unfolding add_row
groups_loop [] gs = gs
groups_loop (r ∷ rs) gs = groups_loop rs (add_row r gs)

-- The order of texts by their code points.
unfoldable pub text_before : Text → Text → Bool
text_before [] [] = false
text_before [] (d ∷ t) = true
text_before (c ∷ s) [] = false
text_before (c ∷ s) (d ∷ t) = let rest = text_before s t in ltb c d || c == d && rest

-- The order of the keys, which are tuples.
unfoldable pub is_before : Group → Group → Bool
unfolding text_before
is_before g h =
    text_before g.variant h.variant
    || text_eq g.variant h.variant
      && (text_before g.mode h.mode || text_eq g.mode h.mode && ltb g.connections h.connections)

unfoldable pub insert_group : Group → List Group → List Group
unfolding is_before
insert_group g [] = g ∷ []
insert_group g (h ∷ hs) =
    let rest = insert_group g hs in if is_before h g then h ∷ rest else g ∷ h ∷ hs

-- `sorted(groups.items())`; the keys differ, so the rows are not compared.
unfoldable pub sort_groups : List Group → List Group
unfolding insert_group
sort_groups [] = []
sort_groups (g ∷ gs) = insert_group g (sort_groups gs)

-- `[r[key] for r in rs]`
unfoldable pub column : Text → List Row → Result (List Json)
column key [] = ok []
column key (r ∷ rs) = do
  v ← or_raise (lookup key r.measured) (key_error key)
  vs ← column key rs
  ok (v ∷ vs)

-- `if key in rs[0]: row[key] = median(…)`
unfoldable pub add_median : (List Json → Json) → Text → List Row → Dict Json → Result (Dict Json)
unfolding column
add_median median key [] medians = err index_error
add_median median key (r ∷ rs) medians = elim (lookup key r.measured) [
  | none ↦ ok medians
  | some v ↦ column key (r ∷ rs) >>= λ vs. ok (insert key (median vs) medians)
]

unfoldable pub medians_loop :
    (List Json → Json) → List Text → List Row → Dict Json → Result (Dict Json)
unfolding add_median
medians_loop median [] rs medians = ok medians
medians_loop median (key ∷ keys) rs medians =
    add_median median key rs medians >>= medians_loop median keys rs

abbrev pub measured_names : List Text
measured_names =
    codes "gib_per_cpu_second"
    ∷ codes "gib_per_second"
    ∷ codes "server_cpu_utilization"
    ∷ codes "server_rss_bytes"
    ∷ codes "client_rss_bytes"
    ∷ codes "p50_us"
    ∷ codes "p99_us"
    ∷ []

pub record Line : Type 0 where
  pub variant : Text
  pub mode : Text
  pub connections : ℕ
  pub repetitions : ℕ
  pub medians : Dict Json

unfoldable pub lines_loop : (List Json → Json) → List Group → Result (List Line)
unfolding medians_loop
lines_loop median [] = ok []
lines_loop median (g ∷ gs) = do
  medians ← medians_loop median measured_names g.rows []
  lines ← lines_loop median gs
  ok (
      (record {
        variant = g.variant;
        mode = g.mode;
        connections = g.connections;
        repetitions = length g.rows;
        medians = medians;
      })
      ∷ lines)

-- `median` is the one of Python's library.
unfoldable pub summarize : (List Json → Json) → List Row → Result (List Line)
unfolding groups_loop sort_groups lines_loop
summarize median rows = lines_loop median (sort_groups (groups_loop rows []))
