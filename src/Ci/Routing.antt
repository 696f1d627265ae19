-- ===== src/Ci/Routing.antt =====
-- `scopes` and `changes` of .github/scripts/ci.py. The event file's fields and Git's answer
-- enter as arguments.
use project_veil.Prelude.{
  ℕ, ◌≡◌, refl, ap, ◌∙◌, List, [], ◌∷◌, ◌++◌, map, Bool, true, false, not, ◌&&◌, ◌||◌, some, arith,
  Text, codes, text_eq, starts_with, ends_with, mem_text, if◌then◌else◌, Bool-cases, inl, inr, any,
  all, leb, ◌==◌, length, Bytes, split_at, mem_text-append, lookup, lookup-map,
}

-- `SCOPES`
abbrev pub scope_names : List Text
scope_names =
    codes "core"
    ∷ codes "service"
    ∷ codes "interop"
    ∷ codes "cross"
    ∷ codes "windows"
    ∷ codes "desktop"
    ∷ []

-- The body of the loop: the scopes that one path adds to `selected`.
unfoldable pub scopes_of : Text → List Text
scopes_of path =
    if text_eq path (codes "PROTOCOL.md")
    then codes "interop" ∷ []
    else if ends_with path (codes ".md") || text_eq path (codes "LICENSE")
    then []
    else if starts_with path (codes "veil-core/")
    then scope_names
    else if starts_with path (codes "veil-service/")
    then codes "service" ∷ codes "cross" ∷ codes "windows" ∷ codes "desktop" ∷ []
    else if starts_with path (codes "veil-desktop/")
    then codes "desktop" ∷ []
    else if starts_with path (codes "interop/rust/")
    then codes "interop" ∷ []
    else scope_names

-- `for path in paths: …`; the set is a list in which a name may stand more than once.
unfoldable pub select : List Text → List Text → List Text
unfolding scopes_of
select [] selected = selected
select (path ∷ paths) selected = select paths (selected ++ scopes_of path)

-- `{name: name in selected for name in SCOPES}`
unfoldable pub scopes : List Text → List (Text × Bool)
unfolding select
scopes paths = map (λ name. (name, mem_text name (select paths []))) scope_names

-- `dict.fromkeys(SCOPES, True)`
abbrev pub all_scopes : List (Text × Bool)
all_scopes = map (λ name. (name, true)) scope_names

-- `e["pull_request"]["base"]["sha"]` and `e.get("before", "")` of the event
pub record Event : Type 0 where
  pub kind : Text
  pub base_sha : Text
  pub before : Text

-- `git diff --name-only -z`: its exit status was 0, with this output, or it was not.
pub data Diff : Type 0 where
  listed : Bytes → Diff
  failed : Diff

-- `[0-9a-f]`
hex_char : ℕ → Bool
hex_char c = (leb b'0' c && leb c b'9') || (leb b'a' c && leb c b'f')

-- `re.fullmatch(r"[0-9a-f]{40}", base) and int(base, 16)`
unfoldable pub is_commit : Text → Bool
unfolding hex_char
is_commit base = (length base == 40 && all hex_char base) && any (λ c. not (c == b'0')) base

-- `p for p in diff.stdout.split(b"\0") if p`
unfoldable pub drop_empty : List Bytes → List Text
drop_empty [] = []
drop_empty ([] ∷ parts) = drop_empty parts
drop_empty ((b ∷ bs) ∷ parts) = (b ∷ bs) ∷ drop_empty parts

unfoldable pub changed_paths : Bytes → List Text
unfolding drop_empty
changed_paths out = drop_empty (split_at out 0)

-- `base`
unfoldable pub base_of : Event → Text
base_of e = if text_eq e.kind (codes "pull_request") then e.base_sha else e.before

unfoldable pub select_diff : Diff → List (Text × Bool)
unfolding scopes changed_paths
select_diff (listed out) = scopes (changed_paths out)
select_diff failed = all_scopes

abbrev pub on_diff : Event → Bool
on_diff e =
    (text_eq e.kind (codes "push") || text_eq e.kind (codes "pull_request"))
    && is_commit (base_of e)

-- What `changes` selects and writes to GITHUB_OUTPUT; `diff` runs Git against a base commit.
unfoldable pub changes : (Text → Diff) → Event → List (Text × Bool)
changes diff e = if on_diff e then select_diff (diff (base_of e)) else all_scopes

-- `str(enabled).lower()`
abbrev pub lower : Bool → Text
lower true = codes "true"
lower false = codes "false"

mem-select :
    (n : Text) (paths selected : List Text)
    → mem_text n (select paths selected)
      ≡ (mem_text n selected || any (λ path. mem_text n (scopes_of path)) paths)
unfolding select
mem-select n [] selected = ground arith
mem-select n (path ∷ paths) selected = ground (
  arith,
  mem-select n paths (selected ++ scopes_of path),
  mem_text-append n selected (scopes_of path),
)

-- Each of the six checks is selected exactly if some changed path, taken by itself, asks for it: the
-- order of the paths and the other paths do not matter, and no path takes a check away.
pub lookup-scopes :
    (n : Text) (paths : List Text)
    → mem_text n scope_names ≡ true
    → lookup n (scopes paths) ≡ some (any (λ path. mem_text n (scopes_of path)) paths)
unfolding scopes mem_text
lookup-scopes n paths h =
    lookup-map (λ name. mem_text name (select paths [])) n scope_names h
    ∙ ap some (mem-select n paths [])

select_diff-skips :
    (n : Text) (r : Diff)
    → mem_text n scope_names ≡ true
    → lookup n (select_diff r) ≡ some false
    → (out : Bytes) × (r ≡ listed out)
      × (any (λ path. mem_text n (scopes_of path)) (changed_paths out) ≡ false)
unfolding select_diff
select_diff-skips n (listed out) h skipped = (out, refl, cc (lookup-scopes n (changed_paths out) h))
select_diff-skips n failed h skipped = cc (lookup-map (λ _. true) n scope_names h)

-- A check is skipped only for cause: if one of the six is not selected, then the event is a push or
-- a pull request, its base is a commit, Git listed the changed paths, and none of them asks for
-- the check.
pub changes-skips :
    (diff : Text → Diff) (e : Event) (n : Text)
    → mem_text n scope_names ≡ true
    → lookup n (changes diff e) ≡ some false
    → (out : Bytes) × (on_diff e ≡ true)
      × (diff (base_of e) ≡ listed out)
      × (any (λ path. mem_text n (scopes_of path)) (changed_paths out) ≡ false)
unfolding changes
changes-skips diff e n h skipped = elim (Bool-cases (on_diff e)) [
  | inl on ↦
      let skipped' : lookup n (select_diff (diff (base_of e))) ≡ some false = rw on at skipped in
      let (out, listed_out, none_asks) = select_diff-skips n (diff (base_of e)) h skipped' in
      (out, on, listed_out, none_asks)
  | inr off ↦
      let skipped' : lookup n all_scopes ≡ some false = rw off at skipped in
      cc (lookup-map (λ _. true) n scope_names h)
]
