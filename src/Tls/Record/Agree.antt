-- ===== src/Tls/Record/Agree.antt =====
-- The strict reader and the prefix reader agree on bytes that are whole records.
use project_veil.Prelude.{
  ℕ, ◌+◌, ◌*◌, ◌≡◌, refl, sym, ap, ap₂, ◌∙◌, subst, List, [], ◌∷◌, ◌++◌, map, arith, Bytes, ok,
  length, drop, take, length-append, length-drop, take-append, drop-append,
}
use project_veil.Tls.Record.{Record, length_at, records, sample_records}
use project_veil.Tls.Record.Frames.{Frames, done, frame, IsPartial, length_at-header}
use project_veil.Tls.Record.Strict.{records_iff_Frames}
use project_veil.Tls.Record.Prefix.{shape, sample_records_lem}

tail_eq :
    {a b c d e a' b' c' d' e' : ℕ} {xs ys : Bytes}
    → a ∷ b ∷ c ∷ d ∷ e ∷ xs ≡ a' ∷ b' ∷ c' ∷ d' ∷ e' ∷ ys
    → (a ≡ a') × (d * 256 + e ≡ d' * 256 + e') × (xs ≡ ys)
tail_eq h = (cc, cc, cc)

append_inj :
    (xs ys : Bytes) {us vs : Bytes}
    → length xs ≡ length ys
    → xs ++ us ≡ ys ++ vs
    → (xs ≡ ys) × (us ≡ vs)
append_inj xs ys {us} {vs} n h = (
  sym (take-append xs us) ∙ ap₂ take n h ∙ take-append ys vs,
  sym (drop-append xs us) ∙ ap₂ drop n h ∙ drop-append ys vs,
)

-- Bytes that are whole records have no other reading that stops at a partial record.
Frames-unique :
    {wire left : Bytes} {rs rs' : List Record}
    → Frames wire rs []
    → Frames wire rs' left
    → IsPartial left
    → (rs ≡ rs') × (left ≡ [])
Frames-unique (done e) (done e') p = (refl, sym e' ∙ e)
Frames-unique (done e) (frame typ v w hi lo payload e' n f) p = cc
Frames-unique (frame {rest = rest} typ v w hi lo payload e n f) (done e') p =
    let at_left = ap (λ t. length_at t 0) (sym e' ∙ e) in
    let size = ap length (sym e' ∙ e) in
    absurd (
      omega (
        arith,
        at_left,
        size,
        length_at-header typ v w hi lo (payload ++ rest),
        length-append payload rest,
      ))
Frames-unique (frame {rs = rs₁} typ v w hi lo payload e n f)
      (frame typ' v' w' hi' lo' payload' e' n' f') p =
    let (same_typ, same_n, tails) = tail_eq (sym e ∙ e') in
    let (same, rests) = append_inj payload payload' (sym n ∙ same_n ∙ n') tails in
    let (more, nil) = Frames-unique (subst (λ t. Frames t rs₁ []) rests f) f' p in
    (ap₂ ◌∷◌ (ap₂ (λ a b. (a, b)) same_typ same) more, nil)

-- Where the strict reader accepts the bytes, the prefix reader of `sample` consumes all of them and
-- reports the type and the payload length of each record that the strict reader returns.
pub sample_records-records :
    (wire : Bytes) (rs : List Record)
    → records wire ≡ ok rs
    → ((sample_records wire).0 ≡ map shape rs) × ((sample_records wire).1 ≡ length wire)
sample_records-records wire rs h =
    let (rs', shapes, f, p, le) = sample_records_lem wire in
    let (same, nil) = Frames-unique ((records_iff_Frames wire rs).0 h) f p in
    (
      shapes ∙ ap (map shape) (sym same),
      omega (arith, ap length nil, length-drop (sample_records wire).1 wire),
    )
