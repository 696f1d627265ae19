-- ===== src/Tls/Hello/Wire.antt =====
-- The layout of a ClientHello on the wire (RFC 8446, 4.1.2), and what `hello` makes of one.
use project_veil.Prelude.{
  ℕ, zero, suc, ◌+◌, ◌-◌, ◌*◌, ◌/◌, ◌%◌, ◌≤◌, ◌≡◌, refl, sym, ap, ap₂, ◌∙◌, List, [], ◌∷◌, ◌++◌,
  append_assoc, arith, Bytes, Text, Result, ok, ◌>>=◌, length, take, drop, slice, from_bytes,
  length-append, take-append, drop-append, index, le→ltb, lt→ltb, ==_iff, fun_ext,
}
use project_veil.Tls.Hello.Vectors.{grease, be16}
use project_veil.Tls.Hello.{Scan, absorb, extensions_loop}

abbrev pub uint16 : ℕ → Bytes
uint16 n = n / 256 ∷ n % 256 ∷ []

pub record ClientHello : Type 0 where
  pub version : Bytes
  pub random : Bytes
  pub session_id : Bytes
  pub ciphers : List ℕ
  pub compression : Bytes
  pub extensions : List (ℕ × Bytes)

abbrev pub encode_extensions : List (ℕ × Bytes) → Bytes
encode_extensions [] = []
encode_extensions ((typ, value) ∷ es) =
    uint16 typ ++ (uint16 (length value) ++ (value ++ encode_extensions es))

-- From the session ID on.
abbrev pub encode_tail : ClientHello → Bytes
encode_tail h =
    length h.session_id
    ∷ (h.session_id
        ++ (uint16 (2 * length h.ciphers)
            ++ (be16 h.ciphers
                ++ (length h.compression
                    ∷ (h.compression
                        ++ (uint16 (length (encode_extensions h.extensions))
                            ++ encode_extensions h.extensions))))))

unfoldable pub encode_body : ClientHello → Bytes
encode_body h = h.version ++ (h.random ++ encode_tail h)

unfoldable pub encode : ClientHello → Bytes
encode h = let n = length (encode_body h) in 1 ∷ n / 65536 ∷ n / 256 % 256 ∷ n % 256 ∷ encode_body h

-- Where a piece stands between two others.
pub slice-middle :
    (pre mid post : Bytes) {wire : Bytes} {a b : ℕ}
    → wire ≡ pre ++ (mid ++ post)
    → a ≡ length pre
    → b ≡ a + length mid
    → slice wire a b ≡ mid
slice-middle pre mid post {wire} {a} {b} e ea eb =
    let len : b - a ≡ length mid = omega arith in
    ap₂ take len (ap₂ drop ea e ∙ drop-append pre (mid ++ post)) ∙ take-append mid post

pub index-middle :
    (pre : Bytes) (b : ℕ) (post : Bytes) {wire : Bytes} {a : ℕ}
    → wire ≡ pre ++ (b ∷ post)
    → a ≡ length pre
    → index wire a ≡ ok b
index-middle pre b post e ea = rw (e, ea) (go pre)
  where
    go : (pre : Bytes) → index (pre ++ (b ∷ post)) (length pre) ≡ ok b
    go [] = refl
    go (_ ∷ pre) = go pre

pub from_bytes-uint16 : (n : ℕ) → from_bytes (uint16 n) ≡ n
unfolding from_bytes
from_bytes-uint16 n = omega arith

module _ (sha256 : Bytes → Text) where
  -- The extensions, taken in one by one with no bytes in sight.
  abbrev pub absorb_all : List (ℕ × Bytes) → Scan → Result Scan
  absorb_all [] s = ok s
  absorb_all ((typ, value) ∷ es) s = absorb sha256 (grease typ) value s >>= λ s'. absorb_all es s'

  pub extensions_loop-absorb_all :
      (fuel : ℕ) (es : List (ℕ × Bytes)) (pre : Bytes) {body : Bytes} {p : ℕ} (s : Scan)
      → body ≡ pre ++ encode_extensions es
      → p ≡ length pre
      → length body ≤ fuel + p
      → extensions_loop sha256 fuel body p s ≡ absorb_all es s
  unfolding extensions_loop
  extensions_loop-absorb_all zero [] pre {body} {p} s e ep m =
      rw (le→ltb p (length body) (omega (arith, ap length e, length-append pre [])))
  extensions_loop-absorb_all (suc fuel) [] pre {body} {p} s e ep m =
      rw (le→ltb p (length body) (omega (arith, ap length e, length-append pre [])))
  extensions_loop-absorb_all zero ((typ, value) ∷ es) pre s e ep m =
      absurd (omega (arith, ap length e, length-append pre (encode_extensions ((typ, value) ∷ es))))
  extensions_loop-absorb_all (suc fuel) ((typ, value) ∷ es) pre {body} {p} s e ep m =
      let n = length value in
      let rest = encode_extensions es in
      let e₂ : body ≡ (pre ++ uint16 typ) ++ (uint16 n ++ (value ++ rest)) =
        e ∙ sym (append_assoc pre (uint16 typ) _) in
      let e₄ : body ≡ (pre ++ (uint16 typ ++ uint16 n)) ++ (value ++ rest) =
        e ∙ sym (append_assoc pre (uint16 typ ++ uint16 n) _) in
      let e₅ : body ≡ (pre ++ (uint16 typ ++ (uint16 n ++ value))) ++ rest =
        e ∙ simp append_assoc in
      let l₂ : p + 2 ≡ length (pre ++ uint16 typ) = omega (arith, length-append pre (uint16 typ)) in
      let l₄ : p + 4 ≡ length (pre ++ (uint16 typ ++ uint16 n)) =
        omega (arith, length-append pre (uint16 typ ++ uint16 n)) in
      let whole : length body ≡ length pre + (4 + (n + length rest)) = omega (
        arith,
        ap length e,
        length-append pre (encode_extensions ((typ, value) ∷ es)),
        length-append value rest,
      ) in
      let l₅ : p + (4 + n) ≡ length (pre ++ (uint16 typ ++ (uint16 n ++ value))) =
        omega (arith, length-append pre (uint16 typ ++ (uint16 n ++ value))) in
      let more = λ (s' : Scan).
        extensions_loop-absorb_all fuel es (pre ++ (uint16 typ ++ (uint16 n ++ value))) s' e₅ l₅
          (omega arith) in
      let c₀ : slice body p (p + 2) ≡ uint16 typ =
        slice-middle pre (uint16 typ) (uint16 n ++ (value ++ rest)) e ep (omega arith) in
      let c₂ : slice body (p + 2) (p + 4) ≡ uint16 n =
        slice-middle (pre ++ uint16 typ) (uint16 n) (value ++ rest) e₂ l₂ (omega arith) in
      let c₄ : slice body (p + 4) (p + 4 + n) ≡ value =
        slice-middle (pre ++ (uint16 typ ++ uint16 n)) value rest e₄ l₄ refl in
      rw
        (
          c₀,
          from_bytes-uint16 typ,
          c₂,
          from_bytes-uint16 n,
          c₄,
          lt→ltb p (length body) (omega arith),
          (==_iff n n).1 refl,
        )
        (ap (λ k. absorb sha256 (grease typ) value s >>= k) (fun_ext more))
