-- ===== src/Tls/Capture/Events.antt =====
-- The bytes of a direction's events, and updates of one direction.
use project_veil.Prelude.{
  ℕ, ◌+◌, ◌≡◌, refl, List, [], ◌∷◌, ◌++◌, arith, if◌then◌else◌, Bool, true, false, ap,
}
use project_veil.Tls.Capture.{Direction, up, down, Both, at, put, Event}

abbrev pub same_direction : Direction → Direction → Bool
same_direction up up = true
same_direction up down = false
same_direction down up = false
same_direction down down = true

-- The bytes of the events of a direction.
unfoldable pub event_bytes : Direction → List Event → ℕ
event_bytes d [] = 0
event_bytes d (e ∷ es) = (if same_direction e.direction d then e.bytes else 0) + event_bytes d es

pub event_bytes-append :
    (d : Direction) (es fs : List Event)
    → event_bytes d (es ++ fs) ≡ event_bytes d es + event_bytes d fs
unfolding event_bytes
event_bytes-append d [] fs = omega arith
event_bytes-append d (e ∷ es) fs = omega (arith, event_bytes-append d es fs)

pub at-put {ℓ} : {A : Type ℓ} (d : Direction) (a : A) (b : Both A) → at d (put d a b) ≡ a
at-put up a b = refl
at-put down a b = refl

pub at-put_other {ℓ} :
    {A : Type ℓ} (d e : Direction) (a : A) (b : Both A)
    → same_direction e d ≡ false
    → at d (put e a b) ≡ at d b
at-put_other up up a b h = cc
at-put_other up down a b h = refl
at-put_other down up a b h = refl
at-put_other down down a b h = cc

pub same_direction_sound : (d e : Direction) → same_direction e d ≡ true → e ≡ d
same_direction_sound up up h = refl
same_direction_sound up down h = cc
same_direction_sound down up h = cc
same_direction_sound down down h = refl

same_direction_refl : (d : Direction) → same_direction d d ≡ true
same_direction_refl up = refl
same_direction_refl down = refl

event_bytes_one :
    (d e : Direction) (n time : ℕ)
    → event_bytes d ((record { direction = e; bytes = n; time = time }) ∷ [])
      ≡ (if same_direction e d then n else 0)
unfolding event_bytes
event_bytes_one d e n time = omega arith

pub event_bytes_own :
    (d : Direction) (n time : ℕ) (es : List Event)
    → event_bytes d (es ++ (record { direction = d; bytes = n; time = time }) ∷ [])
      ≡ event_bytes d es + n
event_bytes_own d n time es = omega (
  arith,
  event_bytes-append d es ((record { direction = d; bytes = n; time = time }) ∷ []),
  event_bytes_one d d n time,
  ap (λ b. if b then n else 0) (same_direction_refl d),
)

pub event_bytes_other :
    (d e : Direction) (n time : ℕ) (es : List Event)
    → same_direction e d ≡ false
    → event_bytes d (es ++ (record { direction = e; bytes = n; time = time }) ∷ [])
      ≡ event_bytes d es
event_bytes_other d e n time es h =
    let one = ap (λ b. if b then n else 0) h in
    omega (
      arith,
      event_bytes-append d es ((record { direction = e; bytes = n; time = time }) ∷ []),
      event_bytes_one d e n time,
      one,
    )
