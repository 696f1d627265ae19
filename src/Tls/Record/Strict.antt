-- ===== src/Tls/Record/Strict.antt =====
-- `records` of reality_fingerprint.py decides the framing relation.
use project_veil.Prelude.{
  ℕ, zero, suc, ◌+◌, ◌-◌, ◌*◌, ◌≤◌, ◌<◌, ◌≡◌, ◌≢◌, ◌↔◌, refl, sym, ap, ◌∙◌, subst, List, [], ◌∷◌,
  ◌++◌, append-nil, append_assoc, arith, Bytes, ok, err, out_of_fuel, value_error, codes, length,
  drop, take, length-append, length-drop, take-append, drop-append,
}
use native.Mathlib.Decide.{dec_lt}
use project_veil.Tls.Record.{Record, records, records_loop}
use project_veil.Tls.Record.Frames.{
  Frames, done, frame, length_at-header, drop-header, Frames-header,
}

-- One round of the loop at a whole header and a whole payload.
records_loop_step :
    (fuel typ v w hi lo n : ℕ) (rest : Bytes) (acc : List Record)
    → n ≡ hi * 256 + lo
    → n ≤ length rest
    → records_loop (suc fuel) (typ ∷ v ∷ w ∷ hi ∷ lo ∷ rest) acc
      ≡ records_loop fuel (drop n rest) (acc ++ (typ, take n rest) ∷ [])
unfolding records_loop
records_loop_step fuel typ v w hi lo n rest acc e h =
    let unshift : 5 + n - 5 ≡ n = omega arith in
    rw (length_at-header typ v w hi lo rest, ← e, drop-header typ v w hi lo n rest, unshift)
      (ground arith)

-- A header whose payload is cut short ends the loop with an error.
records_loop_truncated :
    (fuel typ v w hi lo : ℕ) (rest : Bytes) (acc : List Record)
    → length rest < hi * 256 + lo
    → records_loop (suc fuel) (typ ∷ v ∷ w ∷ hi ∷ lo ∷ rest) acc
      ≡ err (value_error (codes "truncated TLS record"))
unfolding records_loop
records_loop_truncated fuel typ v w hi lo rest acc h =
    rw (length_at-header typ v w hi lo rest) (ground arith)

records_loop_sound :
    (fuel : ℕ) (wire : Bytes) (acc : List Record) {result : List Record}
    → records_loop fuel wire acc ≡ ok result
    → (rs : List Record) × (result ≡ acc ++ rs) × Frames wire rs []
unfolding records_loop
records_loop_sound fuel [] acc h = ([], rw append-nil (cc), done refl)
records_loop_sound zero (typ ∷ wire) acc h = cc
records_loop_sound (suc fuel) (_ ∷ []) acc h = cc
records_loop_sound (suc fuel) (_ ∷ _ ∷ []) acc h = cc
records_loop_sound (suc fuel) (_ ∷ _ ∷ _ ∷ []) acc h = cc
records_loop_sound (suc fuel) (_ ∷ _ ∷ _ ∷ _ ∷ []) acc h = cc
records_loop_sound (suc fuel) (typ ∷ v ∷ w ∷ hi ∷ lo ∷ rest) acc h =
    let n = hi * 256 + lo in
    elim (dec_lt (length rest) n) [
      | yes cut ↦ cc (records_loop_truncated fuel typ v w hi lo rest acc cut)
      | no fits ↦
          let fits' : n ≤ length rest = omega arith in
          let h' = sym (records_loop_step fuel typ v w hi lo n rest acc refl fits') ∙ h in
          let (rs, e, f) = records_loop_sound fuel (drop n rest) _ h' in
          (
            (typ, take n rest) ∷ rs,
            e ∙ append_assoc acc ((typ, take n rest) ∷ []) rs,
            Frames-header typ v w hi lo n rest [] rs refl fits' f,
          )
    ]

records_loop_complete :
    (fuel : ℕ) {wire : Bytes} {rs : List Record} (acc : List Record)
    → Frames wire rs []
    → length wire ≤ fuel
    → records_loop fuel wire acc ≡ ok (acc ++ rs)
records_loop_complete fuel acc (done e) h = rw (e, append-nil) (unfold records_loop in refl)
records_loop_complete zero acc (frame typ v w hi lo payload e _ f) h =
    absurd (omega (arith, ap length e))
records_loop_complete (suc fuel) acc (frame {rest = rest} {rs = rs} typ v w hi lo payload e n f) h =
    let fits : length payload ≤ length (payload ++ rest) =
      omega (arith, length-append payload rest) in
    let room : length rest ≤ fuel = omega (arith, ap length e, length-append payload rest) in
    rw (
      e,
      records_loop_step fuel typ v w hi lo (length payload) (payload ++ rest) acc (sym n) fits,
      drop-append payload rest,
      take-append payload rest,
      records_loop_complete fuel (acc ++ (typ, payload) ∷ []) f room,
      append_assoc acc ((typ, payload) ∷ []) rs,
    )

-- `records` accepts exactly the byte strings that are TLS records end to end, and returns those
-- records: its result is `rs` exactly when the wire is `rs` framed, with nothing left over.
pub records_iff_Frames :
    (wire : Bytes) (rs : List Record) → (records wire ≡ ok rs) ↔ Frames wire rs []
unfolding records
records_iff_Frames wire rs = (sound, λ f. records_loop_complete (length wire) [] f (omega arith))
  where
    sound : records_loop (length wire) wire [] ≡ ok rs → Frames wire rs []
    sound h =
        let (rs', e, f) = records_loop_sound (length wire) wire [] h in
        subst (λ t. Frames wire t []) (sym e) f

-- Whatever the bytes, the loop ends before its fuel does.
records_loop-ne-out_of_fuel :
    (fuel : ℕ) (wire : Bytes) (acc : List Record)
    → length wire ≤ fuel
    → records_loop fuel wire acc ≢ err out_of_fuel
unfolding records_loop
records_loop-ne-out_of_fuel fuel [] acc h e = cc
records_loop-ne-out_of_fuel zero (typ ∷ wire) acc h e = absurd (omega arith)
records_loop-ne-out_of_fuel (suc fuel) (_ ∷ []) acc h e = cc
records_loop-ne-out_of_fuel (suc fuel) (_ ∷ _ ∷ []) acc h e = cc
records_loop-ne-out_of_fuel (suc fuel) (_ ∷ _ ∷ _ ∷ []) acc h e = cc
records_loop-ne-out_of_fuel (suc fuel) (_ ∷ _ ∷ _ ∷ _ ∷ []) acc h e = cc
records_loop-ne-out_of_fuel (suc fuel) (typ ∷ v ∷ w ∷ hi ∷ lo ∷ rest) acc h e =
    let n = hi * 256 + lo in
    elim (dec_lt (length rest) n) [
      | yes cut ↦ cc (records_loop_truncated fuel typ v w hi lo rest acc cut)
      | no fits ↦
          let step = records_loop_step fuel typ v w hi lo n rest acc refl (omega arith) in
          records_loop-ne-out_of_fuel fuel (drop n rest) _ (omega (arith, length-drop n rest))
            (sym step ∙ e)
    ]

-- `records` always comes to an end with a list of records or with a ValueError: the fuel of the
-- model never runs out.
pub records-ne-out_of_fuel : (wire : Bytes) → records wire ≢ err out_of_fuel
unfolding records
records-ne-out_of_fuel wire = records_loop-ne-out_of_fuel (length wire) wire [] (omega arith)
