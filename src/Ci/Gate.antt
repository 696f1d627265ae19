-- ===== src/Ci/Gate.antt =====
-- `check_gate` of .github/scripts/ci.py, and what it guarantees together with the routing.
use mathlib.Core.Option
use project_veil.Prelude.{
  All-mem_text, lookup-map_values, ◌≡◌, ◌↔◌, refl, sym, ap, ◌∙◌, List, [], ◌∷◌, ◌++◌, map, true,
  ◌&&◌, ◌||◌, some, arith, Text, codes, text_eq, text_eq_iff, mem_text, Dict, lookup, Result, ok,
  value_error, key_error, or_raise, guard, ◌>>=◌, ◌>>◌, >>=-eq-ok, All, any, ◌⊎◌, inl, inr,
  Option-cases, Bool-cases,
}
use project_veil.Ci.Routing.{scope_names, scopes_of, scopes, lookup-scopes, lower}

-- `needs[name]` of the workflow's context
pub record Job : Type 0 where
  pub result : Text
  pub outputs : Dict Text

-- `job = needs[name]`, which raises on a missing key
abbrev pub get {ℓ} : {V : Type ℓ} → Text → Dict V → Result V
get name d = or_raise (lookup name d) (key_error name)

-- The two tests of the loop over `SCOPES`.
unfoldable pub check_verdict : Text → Text → Text → Result (Unit {0})
check_verdict name required result = do
  guard (text_eq required (codes "true") || text_eq required (codes "false"))
      (value_error (codes "invalid routing output: " ++ name))
  guard
      (text_eq result (codes "success")
        || (text_eq required (codes "false") && text_eq result (codes "skipped")))
      (value_error (name ++ (codes ": required=" ++ (required ++ (codes ", result=" ++ result)))))

-- The body of that loop.
unfoldable pub check_scope : Dict Text → Dict Job → Text → Result (Unit {0})
unfolding check_verdict
check_scope selected needs name = do
  required ← get name selected
  job ← get name needs
  check_verdict name required job.result

unfoldable pub check_scopes : Dict Text → Dict Job → List Text → Result (Unit {0})
unfolding check_scope
check_scopes selected needs [] = ok tt
check_scopes selected needs (name ∷ names) =
    check_scope selected needs name >> check_scopes selected needs names

unfoldable pub check_gate : Dict Job → Result (Unit {0})
unfolding check_scopes
check_gate needs = do
  job ← get (codes "changes") needs
  guard (text_eq job.result (codes "success"))
      (value_error (codes "change detection failed or was cancelled"))
  check_scopes job.outputs needs scope_names

-- What the gate accepts: a success, or a skip where nothing was required.
abbrev pub Accepted : Text → Text → Type 0
Accepted required result =
    ((result ≡ codes "success") × ((required ≡ codes "true") ⊎ (required ≡ codes "false")))
    ⊎ ((result ≡ codes "skipped") × (required ≡ codes "false"))

check_verdict_sound :
    (name required result : Text)
    → check_verdict name required result ≡ ok tt
    → Accepted required result
unfolding check_verdict
check_verdict_sound name required result h = ground (
  arith,
  text_eq_iff required (codes "true"),
  text_eq_iff required (codes "false"),
  text_eq_iff result (codes "success"),
  text_eq_iff result (codes "skipped"),
)

check_verdict_complete :
    (name required result : Text)
    → Accepted required result
    → check_verdict name required result ≡ ok tt
unfolding check_verdict
check_verdict_complete name required result h = ground (
  arith,
  text_eq_iff required (codes "true"),
  text_eq_iff required (codes "false"),
  text_eq_iff result (codes "success"),
  text_eq_iff result (codes "skipped"),
)

pub record Settled (selected : Dict Text) (needs : Dict Job) (name : Text) : Type 0 where
  pub required : Text
  pub job : Job
  pub selected_as : lookup name selected ≡ some required
  pub found : lookup name needs ≡ some job
  pub accepted : Accepted required job.result

check_scope_sound :
    (selected : Dict Text) (needs : Dict Job) (name : Text)
    → check_scope selected needs name ≡ ok tt
    → Settled selected needs name
unfolding check_scope
check_scope_sound selected needs name h = elim (Option-cases (lookup name selected)) [
  | inl e ↦ cc (rw e at h)
  | inr (required, e) ↦ elim (Option-cases (lookup name needs)) [
    | inl e' ↦ cc (rw (e, e') at h)
    | inr (job, e') ↦ record {
      required = required;
      job = job;
      selected_as = e;
      found = e';
      accepted = check_verdict_sound name required job.result (rw (e, e') at h);
    }
  ]
]

check_scope_complete :
    (selected : Dict Text) (needs : Dict Job) (name : Text)
    → Settled selected needs name
    → check_scope selected needs name ≡ ok tt
unfolding check_scope
check_scope_complete selected needs name s =
    rw (s.selected_as, s.found) (check_verdict_complete name s.required s.job.result s.accepted)

Accepted-required :
    (required result : Text)
    → required ≡ codes "true"
    → Accepted required result
    → result ≡ codes "success"
Accepted-required required result h (inl (success, _)) = success
Accepted-required required result h (inr (_, not_required)) = cc

check_scopes_sound :
    (selected : Dict Text) (needs : Dict Job) (names : List Text)
    → check_scopes selected needs names ≡ ok tt
    → All (Settled selected needs) names
unfolding check_scopes
check_scopes_sound selected needs [] h = tt
check_scopes_sound selected needs (name ∷ names) h =
    let (u, e, rest) =
      >>=-eq-ok (check_scope selected needs name) (λ _. check_scopes selected needs names) h in
    (check_scope_sound selected needs name e, check_scopes_sound selected needs names rest)

check_scopes_complete :
    (selected : Dict Text) (needs : Dict Job) (names : List Text)
    → All (Settled selected needs) names
    → check_scopes selected needs names ≡ ok tt
unfolding check_scopes
check_scopes_complete selected needs [] h = refl
check_scopes_complete selected needs (name ∷ names) (h, hs) =
    rw (check_scope_complete selected needs name h) (check_scopes_complete selected needs names hs)

-- The change detection succeeded, and each of the six scopes is settled by what it selected.
pub record Passed (needs : Dict Job) : Type 0 where
  pub changes : Job
  pub found : lookup (codes "changes") needs ≡ some changes
  pub succeeded : changes.result ≡ codes "success"
  pub settled : All (Settled changes.outputs needs) scope_names

check_gate_sound : (needs : Dict Job) → check_gate needs ≡ ok tt → Passed needs
unfolding check_gate
check_gate_sound needs h = elim (Option-cases (lookup (codes "changes") needs)) [
  | inl e ↦ cc (rw e at h)
  | inr (job, e) ↦ elim (Bool-cases (text_eq job.result (codes "success"))) [
    | inl good ↦ record {
      changes = job;
      found = e;
      succeeded = (text_eq_iff job.result (codes "success")).0 good;
      settled = check_scopes_sound job.outputs needs scope_names (rw (e, good) at h);
    }
    | inr bad ↦ cc (rw (e, bad) at h)
  ]
]

check_gate_complete : (needs : Dict Job) → Passed needs → check_gate needs ≡ ok tt
unfolding check_gate
check_gate_complete needs p =
    rw (p.found, (text_eq_iff p.changes.result (codes "success")).1 p.succeeded)
      (check_scopes_complete p.changes.outputs needs scope_names p.settled)

-- The gate passes exactly if the change detection succeeded and, for each of the six scopes, the
-- routing output is "true" or "false" and the job succeeded, or the output is "false" and the job
-- was skipped. In every other case, a missing job or output included, it raises.
pub check_gate_iff : (needs : Dict Job) → (check_gate needs ≡ ok tt) ↔ Passed needs
check_gate_iff needs = (check_gate_sound needs, check_gate_complete needs)

-- With the outputs that the routing of these paths wrote, a passed gate means that every check that
-- some changed path asks for ran and succeeded: none of them was skipped.
pub check_gate-scopes :
    (paths : List Text) (needs : Dict Job) (changes : Job) (name : Text)
    → lookup (codes "changes") needs ≡ some changes
    → changes.outputs ≡ map (λ (n, enabled). (n, lower enabled)) (scopes paths)
    → check_gate needs ≡ ok tt
    → mem_text name scope_names ≡ true
    → any (λ path. mem_text name (scopes_of path)) paths ≡ true
    → (job : Job) × (lookup name needs ≡ some job) × (job.result ≡ codes "success")
check_gate-scopes paths needs changes name found outputs passed known asked =
    let p = check_gate_sound needs passed in
    let same : changes ≡ p.changes = cc (p.found) in
    let s = All-mem_text (Settled p.changes.outputs needs) name scope_names known p.settled in
    let wrote : lookup name p.changes.outputs ≡ some (codes "true") =
      ap (λ (c : Job). lookup name c.outputs) (sym same)
      ∙ ap (lookup name) outputs
      ∙ lookup-map_values lower name (scopes paths)
      ∙ ap (Option.map lower) (lookup-scopes name paths known ∙ ap some asked) in
    (s.job, s.found, Accepted-required s.required s.job.result (cc (s.selected_as)) s.accepted)
