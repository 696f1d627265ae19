-- ===== src/Bench/Json/Laws.antt =====
-- Reading a key that was set.
use project_veil.Prelude.{
  ◌≡◌, refl, ◌∙◌, ap, some, Text, text_eq, text_eq_iff, ok, or_raise, key_error, arith,
  if◌then◌else◌, Bool-cases, inl, inr, ok_injective, subst,
}
use project_veil.Bench.Json.{
  Json, null, text, num, boolean, array, object, Fields, no_field, field, get_field, put_field,
  get_key, set_key,
}

get_field-put_field :
    (k l : Text) (v : Json) (fs : Fields)
    → get_field k (put_field l v fs) ≡ (if text_eq l k then some v else get_field k fs)
unfolding get_field put_field
get_field-put_field k l v no_field = refl
get_field-put_field k l v (field m j fs) =
    ground (arith, get_field-put_field k l v fs, text_eq_iff m l, text_eq_iff m k, text_eq_iff l k)

-- A document after `j[l] = v`.
pub get_key-set_key :
    (k l : Text) (v j j' : Json)
    → set_key l v j ≡ ok j'
    → get_key k j' ≡ (if text_eq l k then ok v else get_key k j)
unfolding set_key get_key
get_key-set_key k l v (object fs) j' h =
    subst
      (λ x. get_key k x ≡ (if text_eq l k then ok v else or_raise (get_field k fs) (key_error k)))
      (ok_injective h)
      (ap (λ o. or_raise o (key_error k)) (get_field-put_field k l v fs)
        ∙ (elim (Bool-cases (text_eq l k)) [ inl e ↦ rw e refl | inr e ↦ rw e refl ]))
get_key-set_key k l v null j' h = cc
get_key-set_key k l v (text _) j' h = cc
get_key-set_key k l v (num _) j' h = cc
get_key-set_key k l v (boolean _) j' h = cc
get_key-set_key k l v (array _) j' h = cc
