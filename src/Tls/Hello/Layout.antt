-- ===== src/Tls/Hello/Layout.antt =====
-- Where the fields of a ClientHello stand on the wire, at the indices that `hello` computes.
use project_veil.Prelude.{
  ℕ, ◌+◌, ◌*◌, ◌≡◌, refl, ap, [], ◌∷◌, ◌++◌, append_assoc, arith, Bytes, ok, length, slice,
  length-append, index,
}
use project_veil.Tls.Hello.Vectors.{be16, length-be16}
use project_veil.Tls.Hello.Wire.{
  ClientHello, uint16, encode_extensions, encode_body, slice-middle, index-middle,
}

module _ (h : ClientHello) where
  open h use {version, random, session_id, ciphers, compression}

  -- `p`, before the cipher suites, before the compression methods and before the extensions
  abbrev pub p₀ : ℕ
  p₀ = 35 + length session_id

  abbrev pub p₁ : ℕ
  p₁ = p₀ + (2 + 2 * length ciphers)

  abbrev pub p₂ : ℕ
  p₂ = p₁ + (1 + length compression)

  abbrev exts : Bytes
  exts = encode_extensions h.extensions

  -- The body from the extensions' length, the compression methods, the cipher suites on.
  abbrev from_extensions : Bytes
  from_extensions = uint16 (length exts) ++ exts

  abbrev from_compression : Bytes
  from_compression = length compression ∷ (compression ++ from_extensions)

  abbrev from_ciphers : Bytes
  from_ciphers = uint16 (2 * length ciphers) ++ (be16 ciphers ++ from_compression)

  abbrev from_session : Bytes
  from_session = length session_id ∷ (session_id ++ from_ciphers)

  -- The body up to the session ID, the cipher suites, the compression methods, the extensions.
  abbrev to_session : Bytes
  to_session = version ++ (random ++ length session_id ∷ [])

  abbrev to_ciphers : Bytes
  to_ciphers = version ++ (random ++ length session_id ∷ session_id)

  abbrev to_compression : Bytes
  to_compression = to_ciphers ++ (uint16 (2 * length ciphers) ++ be16 ciphers)

  abbrev to_extensions : Bytes
  to_extensions = to_compression ++ (length compression ∷ compression)

  abbrev pub before : Bytes
  before = to_extensions ++ uint16 (length exts)

module _ (h : ClientHello) (two : length h.version ≡ 2) (many : length h.random ≡ 32) where
  open h use {version, random, session_id, ciphers, compression}

  length-to_ciphers : (p₀ h) ≡ length (to_ciphers h)
  length-to_ciphers = omega (
    arith,
    length-append version (random ++ length session_id ∷ session_id),
    length-append random (length session_id ∷ session_id),
  )

  length-to_compression : (p₁ h) ≡ length (to_compression h)
  length-to_compression = omega (
    arith,
    length-to_ciphers,
    length-be16 ciphers,
    length-append (to_ciphers h) (uint16 (2 * length ciphers) ++ be16 ciphers),
  )

  length-to_extensions : (p₂ h) ≡ length (to_extensions h)
  length-to_extensions = omega (
    arith,
    length-to_compression,
    length-append (to_compression h) (length compression ∷ compression),
  )

  pub slice-version : slice (encode_body h) 0 2 ≡ version
  unfolding encode_body
  slice-version =
      slice-middle [] version (random ++ (from_session h)) {a = 0} {b = 2} refl refl (omega arith)

  pub slice-random : slice (encode_body h) 2 34 ≡ random
  unfolding encode_body
  slice-random =
      slice-middle version random (from_session h) {a = 2} {b = 34} refl (omega arith) (omega arith)

  pub index-session_id : index (encode_body h) 34 ≡ ok (length session_id)
  unfolding encode_body
  index-session_id =
      index-middle (version ++ random) (length session_id) (session_id ++ (from_ciphers h))
        {wire = encode_body h} {a = 34} (simp append_assoc)
        (omega (arith, length-append version random))

  pub slice-session_id : slice (encode_body h) 35 (p₀ h) ≡ session_id
  unfolding encode_body
  slice-session_id =
      slice-middle (to_session h) session_id (from_ciphers h) {wire = encode_body h} {a = 35}
        (simp append_assoc)
        (omega (
          arith,
          length-append version (random ++ length session_id ∷ []),
          length-append random (length session_id ∷ []),
        ))
        refl

  pub slice-ciphers_length : slice (encode_body h) (p₀ h) ((p₀ h) + 2) ≡ uint16 (2 * length ciphers)
  unfolding encode_body
  slice-ciphers_length =
      slice-middle (to_ciphers h) (uint16 (2 * length ciphers))
        (be16 ciphers ++ (from_compression h)) {a = (p₀ h)} {b = (p₀ h) + 2} (simp append_assoc)
        length-to_ciphers refl

  pub slice-ciphers :
      slice (encode_body h) ((p₀ h) + 2) ((p₀ h) + 2 + 2 * length ciphers) ≡ be16 ciphers
  unfolding encode_body
  slice-ciphers =
      slice-middle ((to_ciphers h) ++ uint16 (2 * length ciphers)) (be16 ciphers)
        (from_compression h) {a = (p₀ h) + 2} {b = (p₀ h) + 2 + 2 * length ciphers}
        (simp append_assoc)
        (omega
          (arith, length-to_ciphers, length-append (to_ciphers h) (uint16 (2 * length ciphers))))
        (omega (arith, length-be16 ciphers))

  pub index-compression : index (encode_body h) (p₁ h) ≡ ok (length compression)
  unfolding encode_body
  index-compression =
      index-middle (to_compression h) (length compression) (compression ++ (from_extensions h))
        (simp append_assoc) length-to_compression

  pub slice-compression :
      slice (encode_body h) ((p₁ h) + 1) ((p₁ h) + 1 + length compression) ≡ compression
  unfolding encode_body
  slice-compression =
      slice-middle ((to_compression h) ++ length compression ∷ []) compression (from_extensions h)
        {a = (p₁ h) + 1} (simp append_assoc)
        (omega (
          arith,
          length-to_compression,
          length-append (to_compression h) (length compression ∷ []),
        ))
        refl

  pub slice-extensions_length : slice (encode_body h) (p₂ h) ((p₂ h) + 2) ≡ uint16 (length (exts h))
  unfolding encode_body
  slice-extensions_length =
      slice-middle (to_extensions h) (uint16 (length (exts h))) (exts h) {a = (p₂ h)}
        {b = (p₂ h) + 2} (simp append_assoc) length-to_extensions refl

  pub body-before : encode_body h ≡ (before h) ++ (exts h)
  unfolding encode_body
  body-before = simp append_assoc

  pub length-before : (p₂ h) + 2 ≡ length (before h)
  length-before =
      omega
        (arith, length-to_extensions, length-append (to_extensions h) (uint16 (length (exts h))))

  pub length-body : length (encode_body h) ≡ (p₂ h) + 2 + length (exts h)
  length-body =
      omega (arith, ap length body-before, length-append (before h) (exts h), length-before)
