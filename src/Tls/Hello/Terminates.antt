-- ===== src/Tls/Hello/Terminates.antt =====
-- The loops of `hello` come to an end within the fuel that the model gives them.
use project_veil.Prelude.{
  ℕ, zero, suc, ◌+◌, ◌≤◌, ◌≡◌, ◌≢◌, refl, List, [], ◌∷◌, ◌++◌, true, false, arith, Bytes, Text,
  Result, ok, err, value_error, out_of_fuel, ◌>>=◌, length, slice, from_bytes, ◌==◌, Bool,
  Option-cases, Bool-cases, get_elem?, if◌then◌else◌, inl, inr, index, guard,
}
use project_veil.Tls.Hello.Vectors.{grease, words}
use project_veil.Tls.Hello.Dispatch.{shares_loop, dispatch}
use project_veil.Tls.Hello.{Scan, start, absorb, extensions_loop, hello}

-- The result is not the model's own error.
pub record Ends {ℓ} {A : Type ℓ} (r : Result A) : Type ℓ where
  pub ends : r ≢ err out_of_fuel

module _ {ℓ} {A : Type ℓ} where
  Ends-ok : (a : A) → Ends (ok a)
  Ends-ok a = record { ends = λ h. cc }

  Ends-value_error : (t : Text) → Ends {A = A} (err (value_error t))
  Ends-value_error t = record { ends = λ h. cc }

  Ends-index : (xs : List A) (i : ℕ) → Ends (index xs i)
  Ends-index xs i = record {
    ends = elim (Option-cases (get_elem? xs i)) [
      | inl e ↦ rw e (λ h. cc)
      | inr (a, e) ↦ rw e (λ h. cc)
    ];
  }

  Ends-if :
      (b : Bool) (r s : Result A)
      → (b ≡ true → Ends r)
      → (b ≡ false → Ends s)
      → Ends (if b then r else s)
  Ends-if true r s hr hs = hr refl
  Ends-if false r s hr hs = hs refl

Ends-bind {ℓ κ} :
    {A : Type ℓ} {B : Type κ} (m : Result A) (f : A → Result B)
    → Ends m
    → ((a : A) → Ends (f a))
    → Ends (m >>= f)
Ends-bind (ok a) f hm hf = hf a
Ends-bind (err e) f hm hf = record { ends = λ h. hm.ends (cc) }

Ends-guard : (b : Bool) (t : Text) → Ends (guard b (value_error t))
Ends-guard true t = record { ends = λ h. cc }
Ends-guard false t = record { ends = λ h. cc }

Ends-words : (wire : Bytes) → Ends (words wire)
unfolding words
Ends-words wire = record { ends = ground arith }

ruleset ends_rules =
    (Ends-ok, Ends-value_error, Ends-index, Ends-if, Ends-bind, Ends-guard, Ends-words)

module _ (sha256 : Bytes → Text) where
  Ends-shares_loop :
      (fuel : ℕ) (value : Bytes) (offset : ℕ) (found : List (ℕ × ℕ)) (hashes : List Text)
      → length value ≤ fuel + offset
      → Ends (shares_loop sha256 fuel value offset found hashes)
  unfolding shares_loop
  Ends-shares_loop zero value offset found hashes h = record { ends = ground arith }
  Ends-shares_loop (suc fuel) value offset found hashes h =
      let group = grease (from_bytes (slice value offset (offset + 2))) in
      let size = from_bytes (slice value (offset + 2) (offset + 4)) in
      let public = slice value (offset + 4) (offset + 4 + size) in
      let hashes' = if group == 0x0A0A then hashes else hashes ++ sha256 public ∷ [] in
      let more =
        Ends-shares_loop fuel value (offset + (4 + size)) (found ++ (group, size) ∷ []) hashes'
          (omega arith) in
      search (ends_rules, more)

  Ends-dispatch :
      (typ : ℕ) (value : Bytes) (hashes : List Text) → Ends (dispatch sha256 typ value hashes)
  unfolding dispatch
  Ends-dispatch typ value hashes =
      let shares_end = Ends-shares_loop (length value) value 2 [] hashes (omega arith) in
      elim (Bool-cases (typ == 51)) [
        | inl e ↦ rw e (Ends-bind _ _ shares_end (λ r. Ends-ok _))
        | inr e ↦ rw e (search ends_rules depth 9)
      ]

  Ends-absorb : (typ : ℕ) (value : Bytes) (s : Scan) → Ends (absorb sha256 typ value s)
  unfolding absorb
  Ends-absorb typ value s = search (ends_rules, Ends-dispatch)

  Ends-extensions_loop :
      (fuel : ℕ) (body : Bytes) (p : ℕ) (s : Scan)
      → length body ≤ fuel + p
      → Ends (extensions_loop sha256 fuel body p s)
  unfolding extensions_loop
  Ends-extensions_loop zero body p s h = record { ends = ground arith }
  Ends-extensions_loop (suc fuel) body p s h =
      let typ = grease (from_bytes (slice body p (p + 2))) in
      let n = from_bytes (slice body (p + 2) (p + 4)) in
      let value = slice body (p + 4) (p + 4 + n) in
      let more = λ (s' : Scan). Ends-extensions_loop fuel body (p + (4 + n)) s' (omega arith) in
      let step = Ends-bind (absorb sha256 typ value s) _ (Ends-absorb typ value s) more in
      search (ends_rules, step)

  Ends-all : (body : Bytes) (p : ℕ) → Ends (extensions_loop sha256 (length body) body p start)
  Ends-all body p = Ends-extensions_loop (length body) body p start (omega arith)

  Ends-hello : (wire : Bytes) → Ends (hello sha256 wire)
  unfolding hello
  Ends-hello wire = search (ends_rules, Ends-all) depth 12

  -- `hello` comes to an end on every byte string, with a summary or an exception: the fuel of the
  -- model never runs out.
  pub hello-ne-out_of_fuel : (wire : Bytes) → hello sha256 wire ≢ err out_of_fuel
  hello-ne-out_of_fuel wire = (Ends-hello wire).ends
