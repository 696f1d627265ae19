-- ===== src/Tests/Summary.antt =====
-- A summary of three rows.
use project_veil.Prelude.{ℕ, ◌≡◌, refl, List, [], ◌∷◌, Text, codes, lookup, insert, text_eq, ok}
use project_veil.Bench.Json.{Json, null, num}
use project_veil.Bench.Summary.{
  Row, Line, is_of, add_row, groups_loop, text_before, is_before, insert_group, sort_groups, column,
  add_median, medians_loop, lines_loop, summarize,
}
use project_veil.Bench.Summary.Total.{total_repetitions, summarize_total}

abbrev row : Text → ℕ → Row
row mode connections = record {
  variant = codes "veil";
  mode = mode;
  connections = connections;
  measured = (codes "p50_us", num connections) ∷ [];
}

abbrev rows : List Row
rows = row (codes "U") 8 ∷ row (codes "D") 1 ∷ row (codes "U") 8 ∷ []

abbrev expected_line : Text → ℕ → ℕ → Line
expected_line mode connections repetitions = record {
  variant = codes "veil";
  mode = mode;
  connections = connections;
  repetitions = repetitions;
  medians = (codes "p50_us", num connections) ∷ [];
}

abbrev first_of : List Json → Json
first_of [] = null
first_of (d ∷ ds) = d

summary_runs :
    summarize first_of rows
    ≡ ok (expected_line (codes "D") 1 1 ∷ expected_line (codes "U") 8 2 ∷ [])
unfolding summarize lines_loop medians_loop add_median column sort_groups insert_group is_before
    text_before groups_loop add_row is_of lookup insert text_eq
summary_runs = refl

summarize_total_example :
    total_repetitions (expected_line (codes "D") 1 1 ∷ expected_line (codes "U") 8 2 ∷ []) ≡ 3
summarize_total_example =
    summarize_total first_of rows
      (expected_line (codes "D") 1 1 ∷ expected_line (codes "U") 8 2 ∷ []) summary_runs
