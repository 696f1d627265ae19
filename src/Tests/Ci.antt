-- ===== src/Tests/Ci.antt =====
-- Runs and instances for the routing and the gate of CI.
use project_veil.Prelude.{
  ◌≡◌, ◌↔◌, refl, List, [], ◌∷◌, map, true, false, some, Bytes, Text, codes, any, mem_text, Dict,
  lookup, ok, ◌++◌, starts_with, ends_with, text_eq, split_at,
}
use project_veil.Ci.Routing.{
  scope_names, scopes_of, scopes, lookup-scopes, Event, Diff, listed, on_diff, base_of,
  changed_paths, select_diff, changes, changes-skips, lower, is_commit,
}
use project_veil.Ci.Gate.{Job, check_gate, Passed, check_gate_iff, check_gate-scopes}

abbrev paths : List Text
paths = codes "README.md" ∷ codes "veil-desktop/app.go" ∷ []

scopes_run : scopes paths ≡ map (λ n. (n, mem_text n (codes "desktop" ∷ []))) scope_names
unfolding scopes scopes_of starts_with ends_with text_eq mem_text
scopes_run = refl

lookup-scopes_example :
    lookup (codes "core") (scopes paths)
    ≡ some (any (λ path. mem_text (codes "core") (scopes_of path)) paths)
unfolding mem_text
lookup-scopes_example = lookup-scopes (codes "core") paths refl

abbrev event : Event
event = record {
  kind = codes "push";
  base_sha = [];
  before = codes "0123456789abcdef0123456789abcdef01234567";
}

-- Git lists one document.
diff : Text → Diff
diff base = listed (codes "README.md" ++ 0 ∷ [])

core_skipped : lookup (codes "core") (changes diff event) ≡ some false
unfolding changes select_diff base_of is_commit diff scopes scopes_of starts_with ends_with text_eq
    mem_text lookup changed_paths split_at
core_skipped = refl

changes-skips_example :
    (out : Bytes) × (on_diff event ≡ true)
    × (diff (base_of event) ≡ listed out)
    × (any (λ path. mem_text (codes "core") (scopes_of path)) (changed_paths out) ≡ false)
unfolding mem_text
changes-skips_example = changes-skips diff event (codes "core") refl core_skipped

abbrev success : Job
success = record { result = codes "success"; outputs = [] }

abbrev skipped : Job
skipped = record { result = codes "skipped"; outputs = [] }

routed : Job
routed = record {
  result = codes "success";
  outputs = map (λ (n, enabled). (n, lower enabled)) (scopes paths);
}

needs : Dict Job
unfolding routed
needs =
    (codes "changes", routed)
    ∷ (codes "core", skipped)
    ∷ (codes "service", skipped)
    ∷ (codes "interop", skipped)
    ∷ (codes "cross", skipped)
    ∷ (codes "windows", skipped)
    ∷ (codes "desktop", success)
    ∷ []

needs_pass : check_gate needs ≡ ok tt
unfolding check_gate needs scopes scopes_of starts_with ends_with text_eq mem_text lookup
needs_pass = refl

check_gate_iff_example : (check_gate needs ≡ ok tt) ↔ Passed needs
check_gate_iff_example = check_gate_iff needs

check_gate-scopes_example :
    (job : Job) × (lookup (codes "desktop") needs ≡ some job) × (job.result ≡ codes "success")
unfolding needs lookup text_eq mem_text scopes_of starts_with ends_with
check_gate-scopes_example =
    check_gate-scopes paths needs routed (codes "desktop") refl refl needs_pass refl refl
