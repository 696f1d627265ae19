-- ===== src/Tls/Record/Frames.antt =====
-- The record layer's own definition, free of any reader: a type, two version bytes, a length in
-- two bytes, the payload (RFC 8446, 5.1).
use project_veil.Prelude.{
  ℕ, ◌+◌, ◌*◌, ◌≤◌, ◌<◌, ◌≡◌, refl, sym, ap, ◌⊎◌, List, [], ◌∷◌, ◌++◌, arith, Bytes, length, drop,
  take, from_bytes, drop-drop, length-append, take-append-drop, length-take,
}
use project_veil.Tls.Record.{Record, length_at}

-- `wire` is the records `rs` and then `left`.
pub data Frames : Bytes → List Record → Bytes → Type 0 where
  done : {wire left : Bytes} → wire ≡ left → Frames wire [] left
  frame :
      {wire left rest : Bytes} {rs : List Record} (typ v w hi lo : ℕ) (payload : Bytes)
      → wire ≡ typ ∷ v ∷ w ∷ hi ∷ lo ∷ (payload ++ rest)
      → hi * 256 + lo ≡ length payload
      → Frames rest rs left
      → Frames wire ((typ, payload) ∷ rs) left

-- No whole record stands at the front.
abbrev pub IsPartial : Bytes → Type 0
IsPartial wire = (length wire < 5) ⊎ (length wire < 5 + length_at wire 0)

pub record Header (wire : Bytes) : Type 0 where
  pub typ : ℕ
  pub v : ℕ
  pub w : ℕ
  pub hi : ℕ
  pub lo : ℕ
  pub rest : Bytes
  pub shape : wire ≡ typ ∷ v ∷ w ∷ hi ∷ lo ∷ rest

pub header : (wire : Bytes) → 5 ≤ length wire → Header wire
header [] h = absurd (omega arith)
header (_ ∷ []) h = absurd (omega arith)
header (_ ∷ _ ∷ []) h = absurd (omega arith)
header (_ ∷ _ ∷ _ ∷ []) h = absurd (omega arith)
header (_ ∷ _ ∷ _ ∷ _ ∷ []) h = absurd (omega arith)
header (a ∷ b ∷ c ∷ d ∷ e ∷ r) h = record {
  typ = a;
  v = b;
  w = c;
  hi = d;
  lo = e;
  rest = r;
  shape = refl;
}

pub length_at-header :
    (typ v w hi lo : ℕ) (rest : Bytes) → length_at (typ ∷ v ∷ w ∷ hi ∷ lo ∷ rest) 0 ≡ hi * 256 + lo
unfolding length_at from_bytes
length_at-header typ v w hi lo rest = omega arith

pub drop-header :
    (typ v w hi lo n : ℕ) (rest : Bytes) → drop (5 + n) (typ ∷ v ∷ w ∷ hi ∷ lo ∷ rest) ≡ drop n rest
drop-header typ v w hi lo n rest = sym (drop-drop n 5 (typ ∷ v ∷ w ∷ hi ∷ lo ∷ rest))

-- Reading one record off the front of the records of the rest.
pub Frames-header :
    (typ v w hi lo n : ℕ) (rest left : Bytes) (rs : List Record)
    → n ≡ hi * 256 + lo
    → n ≤ length rest
    → Frames (drop n rest) rs left
    → Frames (typ ∷ v ∷ w ∷ hi ∷ lo ∷ rest) ((typ, take n rest) ∷ rs) left
Frames-header typ v w hi lo n rest left rs e fits f =
    frame typ v w hi lo (take n rest)
      (ap (λ t. typ ∷ v ∷ w ∷ hi ∷ lo ∷ t) (sym (take-append-drop n rest)))
      (omega (arith, length-take n rest)) f

-- Every record takes up its header and its payload.
abbrev pub wire_size : List Record → ℕ
wire_size [] = 0
wire_size ((_, payload) ∷ rs) = 5 + length payload + wire_size rs

pub length-Frames :
    {wire left : Bytes} {rs : List Record}
    → Frames wire rs left
    → length wire ≡ wire_size rs + length left
length-Frames (done e) = omega (arith, ap length e)
length-Frames (frame {rest = rest} typ v w hi lo payload e _ f) =
    omega (arith, ap length e, length-append payload rest, length-Frames f)
