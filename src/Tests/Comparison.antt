-- ===== src/Tests/Comparison.antt =====
-- A comparison of one pair of runs.
use project_veil.Prelude.{◌≡◌, refl, List, [], ◌∷◌, Text, codes, lookup, insert, text_eq, ok, All}
use project_veil.Bench.Json.{Json, null, num}
use project_veil.Bench.Comparison.{
  Row, Entry, put_row, add_row, is_paired, pairs_loop, delta, metric_delta, two_delta, pair_delta,
  deltas, metrics_loop, modes_loop, comparison,
}
use project_veil.Bench.Comparison.Sound.{IsDelta}
use project_veil.Bench.Comparison.Reported.{comparison_reports}
use project_veil.Tests.Calm.{plain}

abbrev row : Text → Json → Row
row group value = record {
  mode = codes "U";
  group = group;
  pair = 0;
  metrics = (codes "throughput", value) ∷ [];
}

abbrev rows : List Row
rows =
    row (codes "after") (num 110)
    ∷ row (codes "warmup") (num 1)
    ∷ row (codes "before") (num 100)
    ∷ []

abbrev first_of : List Json → Json
first_of [] = null
first_of (d ∷ ds) = d

abbrev entry : Entry
entry = record { paired_median_percent = num 110; pairs_percent = num 110 ∷ [] }

comparison_runs :
    comparison plain first_of rows (codes "U" ∷ [])
    ≡ ok ((codes "U", (codes "throughput", entry) ∷ []) ∷ [])
unfolding comparison modes_loop metrics_loop deltas pair_delta two_delta metric_delta delta
    pairs_loop is_paired add_row put_row lookup insert text_eq
comparison_runs = refl

comparison_reports_example :
    (entry.paired_median_percent ≡ first_of entry.pairs_percent)
    × All
        (IsDelta (λ r. r.mode ≡ codes "U") plain (codes "U") (codes "throughput"))
        entry.pairs_percent
unfolding lookup text_eq
comparison_reports_example =
    comparison_reports (λ r. r.mode ≡ codes "U") plain first_of rows (codes "U" ∷ [])
      ((codes "U", (codes "throughput", entry) ∷ []) ∷ []) (refl, (refl, (refl, tt)))
      comparison_runs (codes "U") (codes "throughput") ((codes "throughput", entry) ∷ []) entry refl
      refl
