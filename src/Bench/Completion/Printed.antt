-- ===== src/Bench/Completion/Printed.antt =====
-- The completion line as the proxies print it, read back from their log.
use project_veil.Prelude.{
  ℕ, zero, suc, ◌+◌, ◌*◌, ◌/◌, ◌%◌, ◌≤◌, ◌<◌, ◌≡◌, refl, ap, ◌∙◌, Bool, true, false, [], ◌∷◌, ◌++◌,
  Option, none, some, Text, codes, decimal, decimal_loop, append_assoc, arith, Bool-cases, inl, inr,
  ltb, leb, ◌==◌, ◌&&◌, Option-cases, starts_with, contains,
}
use project_veil.Exec.Held.{mem}
use project_veil.Bench.Completion.{
  Stats, behind, digit_in, digit_of, is_digit, digits, number, match_here, search_stats, ◌>>=◌,
}

-- A text that does not go on with a digit.
abbrev pub NoDigit : Text → Type 0
NoDigit [] = Unit {0}
NoDigit (c ∷ s) = is_digit c ≡ false

digit_of-sum : (d : ℕ) → d < 10 → digit_of (48 + d) ≡ some d
unfolding digit_of digit_in
digit_of-sum d h =
    let here : (leb 48 (48 + d) && ltb (48 + d) 58) ≡ true = ground (arith, h) in
    rw here (ap some (omega arith))

is_digit-sum : (d : ℕ) → d < 10 → is_digit (48 + d) ≡ true
unfolding is_digit
is_digit-sum d h = rw (digit_of-sum d h, is_digit) refl

digits-cons : (n d : ℕ) (s : Text) → d < 10 → digits n ((48 + d) ∷ s) ≡ digits (n * 10 + d) s
unfolding digits
digits-cons n d s h = rw (digit_of-sum d h, digits) refl

digits-decimal_loop :
    (fuel n : ℕ) (s : Text) → n ≤ fuel → digits 0 (decimal_loop fuel n ++ s) ≡ digits n s
unfolding decimal_loop
digits-decimal_loop zero n s h =
    digits-cons 0 n s (omega (arith, h)) ∙ ap (λ k. digits k s) (omega arith)
digits-decimal_loop (suc fuel) n s h = elim (Bool-cases (ltb n 10)) [
  | inl e ↦ rw e (digits-cons 0 n s (ground (arith, e)) ∙ ap (λ k. digits k s) (omega arith))
  | inr e ↦ rw e (
      ap (digits 0) (append_assoc (decimal_loop fuel (n / 10)) ((48 + n % 10) ∷ []) s)
      ∙ digits-decimal_loop fuel (n / 10) ((48 + n % 10) ∷ s) (ground (arith, e, h))
      ∙ digits-cons (n / 10) (n % 10) s (omega arith)
      ∙ ap (λ k. digits k s) (omega arith))
]

digits-stop : (n : ℕ) (s : Text) → NoDigit s → digits n s ≡ (n, s)
unfolding digits is_digit
digits-stop n [] h = refl
digits-stop n (c ∷ s) h = elim (Option-cases (digit_of c)) [
  | inl e ↦ rw (e, digits) refl
  | inr (d, e) ↦ let r = rw (e, is_digit) at h in cc
]

abbrev starts_digit : Text → Bool
starts_digit [] = false
starts_digit (c ∷ s) = is_digit c

starts_digit-decimal_loop :
    (fuel n : ℕ) (s : Text) → n ≤ fuel → starts_digit (decimal_loop fuel n ++ s) ≡ true
unfolding decimal_loop
starts_digit-decimal_loop zero n s h = is_digit-sum n (omega (arith, h))
starts_digit-decimal_loop (suc fuel) n s h = elim (Bool-cases (ltb n 10)) [
  | inl e ↦ rw e (is_digit-sum n (ground (arith, e)))
  | inr e ↦ rw e (
      ap starts_digit (append_assoc (decimal_loop fuel (n / 10)) ((48 + n % 10) ∷ []) s)
      ∙ starts_digit-decimal_loop fuel (n / 10) ((48 + n % 10) ∷ s) (ground (arith, e, h)))
]

number-digits : (s : Text) → starts_digit s ≡ true → number s ≡ some (digits 0 s)
unfolding number
number-digits [] h = cc
number-digits (c ∷ s) h = rw (h, number) refl

-- A number that was printed is read back.
number-decimal : (n : ℕ) (s : Text) → NoDigit s → number (decimal n ++ s) ≡ some (n, s)
unfolding decimal
number-decimal n s h =
    number-digits (decimal n ++ s) (starts_digit-decimal_loop n n s (omega arith))
    ∙ ap some (digits-decimal_loop n n s (omega arith) ∙ digits-stop n s h)

behind-append : (p s : Text) → behind p (p ++ s) ≡ some s
unfolding behind
behind-append [] s = refl
behind-append (c ∷ p) s = ground (arith, behind-append p s)

-- What `log.Printf` of veil-core/cmd/veil/main.go prints.
abbrev pub stopped_line : Stats → Text → Text
stopped_line m rest =
    codes "stopped accepted="
    ++ (decimal m.accepted
        ++ (codes " rejected="
            ++ (decimal m.rejected
                ++ (codes " completed="
                    ++ (decimal m.completed ++ (codes " failed=" ++ (decimal m.failed ++ rest)))))))

read_number :
    {B : Type 0} (p : Text) (n : ℕ) (s : Text) (f : ℕ × Text → Option B)
    → NoDigit s
    → (behind p (p ++ (decimal n ++ s)) >>= λ t. number t >>= f) ≡ f (n, s)
read_number p n s f h =
    ap (λ o. o >>= λ t. number t >>= f) (behind-append p (decimal n ++ s))
    ∙ ap (λ o. o >>= f) (number-decimal n s h)

match_here-stopped_line :
    (m : Stats) (rest : Text) → NoDigit rest → match_here (stopped_line m rest) ≡ some m
unfolding match_here is_digit
match_here-stopped_line m rest h =
    let s3 : Text = codes " failed=" ++ (decimal m.failed ++ rest) in
    let s2 : Text = codes " completed=" ++ (decimal m.completed ++ s3) in
    let s1 : Text = codes " rejected=" ++ (decimal m.rejected ++ s2) in
    read_number (codes "stopped accepted=") m.accepted s1 _ refl
    ∙ read_number (codes " rejected=") m.rejected s2 _ refl
    ∙ read_number (codes " completed=") m.completed s3 _ refl
    ∙ read_number (codes " failed=") m.failed rest _ h

-- A text without the letter s is not found where it would go on into one.
behind_blocked :
    (p v t : Text) → mem 115 p ≡ false → starts_with v p ≡ false → behind p (v ++ 115 ∷ t) ≡ none
unfolding behind starts_with mem
behind_blocked [] v t free h = cc
behind_blocked (c ∷ p) [] t free h = ground (arith, free)
behind_blocked (c ∷ p) (d ∷ v) t free h = ground (arith, free, h, behind_blocked p v t)

behind-ne :
    (d : ℕ) (v t : Text)
    → starts_with (d ∷ v) (codes "stopped accepted=") ≡ false
    → behind (codes "stopped accepted=") (d ∷ v ++ 115 ∷ t) ≡ none
unfolding behind starts_with mem
behind-ne d v t h = elim (Bool-cases (115 == d)) [
  | inr e ↦ rw e refl
  | inl e ↦ rw e (behind_blocked (codes "topped accepted=") v t refl (ground (arith, e, h)))
]

none_bind : {A B : Type 0} (o : Option A) (f : A → Option B) → o ≡ none → (o >>= f) ≡ none
none_bind o f e = ap (λ o. o >>= f) e

match_here-none : (s : Text) → behind (codes "stopped accepted=") s ≡ none → match_here s ≡ none
unfolding match_here
match_here-none s e = none_bind (behind (codes "stopped accepted=") s) _ e

search_stats-match_here : (s : Text) (m : Stats) → match_here s ≡ some m → search_stats s ≡ some m
unfolding search_stats
search_stats-match_here [] m h = h
search_stats-match_here (c ∷ s) m h = rw (h, search_stats) refl

search_stats-cons :
    (c : ℕ) (s : Text) → match_here (c ∷ s) ≡ none → search_stats (c ∷ s) ≡ search_stats s
unfolding search_stats
search_stats-cons c s h = rw (h, search_stats) refl

-- A completion line is found in a log and read back, whatever follows that is no digit, where no
-- earlier text of the log has the words that it begins with.
pub search_stats-stopped_line :
    (before : Text) (m : Stats) (rest : Text)
    → contains before (codes "stopped accepted=") ≡ false
    → NoDigit rest
    → search_stats (before ++ stopped_line m rest) ≡ some m
unfolding contains
search_stats-stopped_line [] m rest free h =
    search_stats-match_here (stopped_line m rest) m (match_here-stopped_line m rest h)
search_stats-stopped_line (c ∷ before) m rest free h =
    search_stats-cons c (before ++ stopped_line m rest)
      (match_here-none _ (behind-ne c before _ (ground (arith, free))))
    ∙ search_stats-stopped_line before m rest (ground (arith, free)) h
