-- ===== src/Bench/Summary/Total.antt =====
-- No row is lost or counted twice on the way to the summary.
use project_veil.Prelude.{
  ℕ, ◌+◌, ◌≡◌, refl, sym, ap, ◌∙◌, Bool-cases, inl, inr, List, [], ◌∷◌, ok, ok_injective,
  Result-cases, length, length-append, arith,
}
use project_veil.Bench.Json.{Json}
use project_veil.Bench.Summary.{
  Row, Group, Line, is_of, add_row, groups_loop, is_before, insert_group, sort_groups, medians_loop,
  measured_names, lines_loop, summarize,
}

abbrev total_rows : List Group → ℕ
total_rows [] = 0
total_rows (g ∷ gs) = length g.rows + total_rows gs

abbrev pub total_repetitions : List Line → ℕ
total_repetitions [] = 0
total_repetitions (l ∷ ls) = l.repetitions + total_repetitions ls

total_rows-add_row : (r : Row) (gs : List Group) → total_rows (add_row r gs) ≡ total_rows gs + 1
unfolding add_row
total_rows-add_row r [] = refl
total_rows-add_row r (g ∷ gs) = elim (Bool-cases (is_of r g)) [
  | inl e ↦ rw e (omega (arith, length-append g.rows (r ∷ [])))
  | inr e ↦ rw e (omega (arith, total_rows-add_row r gs))
]

total_rows-groups_loop :
    (rs : List Row) (gs : List Group) → total_rows (groups_loop rs gs) ≡ total_rows gs + length rs
unfolding groups_loop
total_rows-groups_loop [] gs = omega arith
total_rows-groups_loop (r ∷ rs) gs =
    omega (arith, total_rows-groups_loop rs (add_row r gs), total_rows-add_row r gs)

total_rows-insert_group :
    (g : Group) (gs : List Group) → total_rows (insert_group g gs) ≡ length g.rows + total_rows gs
unfolding insert_group
total_rows-insert_group g [] = refl
total_rows-insert_group g (h ∷ hs) = elim (Bool-cases (is_before h g)) [
  | inl e ↦ rw e (omega (arith, total_rows-insert_group g hs))
  | inr e ↦ rw e refl
]

total_rows-sort_groups : (gs : List Group) → total_rows (sort_groups gs) ≡ total_rows gs
unfolding sort_groups
total_rows-sort_groups [] = refl
total_rows-sort_groups (g ∷ gs) =
    omega (arith, total_rows-insert_group g (sort_groups gs), total_rows-sort_groups gs)

total_repetitions-lines_loop :
    (median : List Json → Json) (gs : List Group) (ls : List Line)
    → lines_loop median gs ≡ ok ls
    → total_repetitions ls ≡ total_rows gs
unfolding lines_loop
total_repetitions-lines_loop median [] ls h = ap total_repetitions (sym (ok_injective h))
total_repetitions-lines_loop median (g ∷ gs) ls h =
    elim (Result-cases (medians_loop median measured_names g.rows [])) [
      | inl (ms, e) ↦ elim (Result-cases (lines_loop median gs)) [
        | inl (more, f) ↦
            let h1 = rw (e, f) at h in
            ap total_repetitions (sym (ok_injective h1))
            ∙ omega (arith, total_repetitions-lines_loop median gs more f)
        | inr (z, f) ↦ let h1 = rw (e, f) at h in cc
      ]
      | inr (z, e) ↦ let h1 = rw e at h in cc
    ]

-- Where a summary is returned, the repetitions of its lines add up to the number of rows.
pub summarize_total :
    (median : List Json → Json) (rows : List Row) (ls : List Line)
    → summarize median rows ≡ ok ls
    → total_repetitions ls ≡ length rows
unfolding summarize
summarize_total median rows ls h =
    let gs = groups_loop rows [] in
    omega (
      arith,
      total_repetitions-lines_loop median (sort_groups gs) ls h,
      total_rows-sort_groups gs,
      total_rows-groups_loop rows [],
    )
