-- ===== src/Desktop/Install/Launcher.antt =====
-- The Exec line of the launcher, read back as the Desktop Entry Specification says.
use project_veil.Prelude.{
  ℕ, ◌≡◌, refl, ap, ◌∙◌, Bool, true, false, ◌||◌, ◌==◌, ==_iff, [], ◌∷◌, ◌++◌, Option, none, some,
  inl, inr, Text, Bool-cases, if◌then◌else◌,
}
use mathlib.Core.List.{flat_map}
use project_veil.Desktop.Install.{escape, exec_command}

abbrev pub cons_to : ℕ → Option Text → Option Text
cons_to c none = none
cons_to c (some s) = some (c ∷ s)

-- Reading a text in which a mark stands before each character that `p` picks, and nowhere else. The
-- Boolean says that a mark has been read.
pub unmark : (ℕ → Bool) → ℕ → Bool → Text → Option Text
unmark p mark true [] = none
unmark p mark false [] = some []
unmark p mark true (c ∷ s) =
    let rest = cons_to c (unmark p mark false s) in if p c then rest else none
unmark p mark false (c ∷ s) =
    let marked = unmark p mark true s in
    let plain = cons_to c (unmark p mark false s) in
    if c == mark then marked else if p c then none else plain

-- The characters that a quoted argument escapes.
pub is_reserved : ℕ → Bool
is_reserved c = c == 0x5C || c == 0x22 || c == 0x60 || c == 0x24

-- The text between two quotes.
pub close_quote : Text → Option Text
close_quote [] = none
close_quote (c ∷ []) = if c == 0x22 then some [] else none
close_quote (c ∷ d ∷ s) = cons_to c (close_quote (d ∷ s))

pub open_quote : Text → Option Text
open_quote [] = none
open_quote (c ∷ s) = if c == 0x22 then close_quote s else none

abbrev pub bind : Option Text → (Text → Option Text) → Option Text
bind none next = none
bind (some s) next = next s

-- A value of type string, then a quoted argument, then the field codes: `%%` is a percent sign, and
-- any other is no path.
pub read_exec : Text → Option Text
read_exec value =
    bind
      (bind (bind (unmark (λ c. c == 0x5C) 0x5C false value) open_quote)
        (unmark is_reserved 0x5C false))
      (unmark (λ c. c == 0x25) 0x25 false)

marked : (ℕ → Bool) → ℕ → Text → Text
marked p mark [] = []
marked p mark (c ∷ s) = if p c then mark ∷ c ∷ marked p mark s else c ∷ marked p mark s

unmark-marked :
    (p : ℕ → Bool) (mark : ℕ) (s : Text)
    → p mark ≡ true
    → unmark p mark false (marked p mark s) ≡ some s
unfolding unmark marked
unmark-marked p mark [] h = refl
unmark-marked p mark (c ∷ s) h = elim (Bool-cases (p c)) [
  | inl e ↦
      let same = (==_iff mark mark).1 refl in rw (e, unmark, unmark-marked p mark s h, same, e) refl
  | inr e ↦ elim (Bool-cases (c == mark)) [
    | inl f ↦ let g = ap p ((==_iff c mark).0 f) in cc
    | inr f ↦ rw (e, unmark, unmark-marked p mark s h, f, e) refl
  ]
]

escape-marked : (d : ℕ) (s : Text) → escape d s ≡ marked (λ c. c == d) 0x5C s
unfolding escape marked flat_map
escape-marked d [] = refl
escape-marked d (c ∷ s) = elim (Bool-cases (c == d)) [
  | inl e ↦ rw e (ap (λ t. 0x5C ∷ c ∷ t) (escape-marked d s))
  | inr e ↦ rw e (ap (λ t. c ∷ t) (escape-marked d s))
]

close_quote-append : (s : Text) → close_quote (s ++ 0x22 ∷ []) ≡ some s
unfolding close_quote
close_quote-append [] = refl
close_quote-append (c ∷ []) = refl
close_quote-append (c ∷ d ∷ s) = ap (cons_to c) (close_quote-append (d ∷ s))

escapes-marked :
    (s : Text) → escape 0x24 (escape 0x60 (escape 0x22 (escape 0x5C s))) ≡ marked is_reserved 0x5C s
unfolding escape marked flat_map is_reserved
escapes-marked [] = refl
escapes-marked (c ∷ s) =
    let two = λ (d : ℕ). ap (λ t. 0x5C ∷ d ∷ t) (escapes-marked s) in
    elim (Bool-cases (c == 0x5C)) [
      | inl e ↦ rw ((==_iff c 0x5C).0 e) (two 0x5C)
      | inr e ↦ elim (Bool-cases (c == 0x22)) [
        | inl f ↦ rw ((==_iff c 0x22).0 f) (two 0x22)
        | inr f ↦ elim (Bool-cases (c == 0x60)) [
          | inl g ↦ rw ((==_iff c 0x60).0 g) (two 0x60)
          | inr g ↦ elim (Bool-cases (c == 0x24)) [
            | inl h ↦ rw ((==_iff c 0x24).0 h) (two 0x24)
            | inr h ↦ rw (e, f, g, h) (ap (λ t. c ∷ t) (escapes-marked s))
          ]
        ]
      ]
    ]

percent-marked :
    (s : Text)
    → flat_map (λ c. if c == 0x25 then 0x25 ∷ c ∷ [] else c ∷ []) s ≡ marked (λ c. c == 0x25) 0x25 s
unfolding marked flat_map
percent-marked [] = refl
percent-marked (c ∷ s) = elim (Bool-cases (c == 0x25)) [
  | inl e ↦ rw e (ap (λ t. 0x25 ∷ c ∷ t) (percent-marked s))
  | inr e ↦ rw e (ap (λ t. c ∷ t) (percent-marked s))
]

exec_command-marked :
    (path : Text)
    → exec_command path
      ≡ marked
          (λ c. c == 0x5C)
          0x5C
          (0x22 ∷ marked is_reserved 0x5C (marked (λ c. c == 0x25) 0x25 path) ++ 0x22 ∷ [])
unfolding exec_command
exec_command-marked path =
    ap
      (λ t.
        escape 0x5C (0x22 ∷ escape 0x24 (escape 0x60 (escape 0x22 (escape 0x5C t))) ++ 0x22 ∷ []))
      (percent-marked path)
    ∙ ap (λ t. escape 0x5C (0x22 ∷ t ++ 0x22 ∷ []))
        (escapes-marked (marked (λ c. c == 0x25) 0x25 path))
    ∙ escape-marked 0x5C _

-- A desktop that reads the launcher's Exec value as the specification says runs the program at
-- exactly the given path, whatever characters the path has: no part of it ends the argument early or
-- is read as a field code.
pub read_exec-exec_command : (path : Text) → read_exec (exec_command path) ≡ some path
unfolding read_exec open_quote is_reserved
read_exec-exec_command path =
    let percents = marked (λ c. c == 0x25) 0x25 path in
    let body = marked is_reserved 0x5C percents in
    let first =
      ap (unmark (λ c. c == 0x5C) 0x5C false) (exec_command-marked path)
      ∙ unmark-marked (λ c. c == 0x5C) 0x5C (0x22 ∷ body ++ 0x22 ∷ []) refl in
    ap
      (λ o.
        bind (bind (bind o open_quote) (unmark is_reserved 0x5C false))
          (unmark (λ c. c == 0x25) 0x25 false))
      first
    ∙ ap (λ o. bind (bind o (unmark is_reserved 0x5C false)) (unmark (λ c. c == 0x25) 0x25 false))
        (close_quote-append body)
    ∙ ap (λ o. bind o (unmark (λ c. c == 0x25) 0x25 false))
        (unmark-marked is_reserved 0x5C percents refl)
    ∙ unmark-marked (λ c. c == 0x25) 0x25 path refl
