-- ===== src/Tls/Hello/RoundTrip.antt =====
-- `hello` reads a well-formed ClientHello field by field.
use project_veil.Prelude.{
  ℕ, suc, ◌+◌, ◌*◌, ◌/◌, ◌%◌, ◌≡◌, refl, sym, [], ◌∷◌, map, arith, Bytes, Text, ok, decimal, hex,
  ◌>>=◌, length, from_bytes, sort, ==_iff,
}
use project_veil.Tls.Hello.Vectors.{grease, words-be16}
use project_veil.Tls.Hello.{Scan, start, Summary, extensions_loop, hello}
use project_veil.Tls.Hello.Wire.{
  ClientHello, encode_extensions, encode_body, encode, from_bytes-uint16, absorb_all,
  extensions_loop-absorb_all,
}
use project_veil.Tls.Hello.Layout.{
  p₂, slice-version, slice-random, index-session_id, slice-session_id, slice-ciphers_length,
  slice-ciphers, index-compression, slice-compression, slice-extensions_length, before, body-before,
  length-before, length-body,
}

module _ (sha256 : Bytes → Text) where
  -- The summary of a ClientHello, from its fields and from the state after its extensions.
  pub summary : ClientHello → Scan → Summary
  summary h s = record {
    profile = record {
      legacy_version = hex h.version;
      ciphers = map grease h.ciphers;
      session_id_length = length h.session_id;
      compression = h.compression;
      extension_ids = sort s.order;
      extensions = map (λ (k, v). (decimal k, v)) s.extensions;
    };
    extension_order = s.order;
    extension_lengths = s.lengths;
    random_sha256 = sha256 h.random;
    session_id_sha256 = sha256 h.session_id;
    key_share_sha256 = s.share_hashes;
    bytes = length (encode h);
  }

  from_bytes-uint24 :
      (n : ℕ) → from_bytes (n / 65536 ∷ n / 256 % 256 ∷ n % 256 ∷ []) + 4 ≡ suc (suc (suc (suc n)))
  unfolding from_bytes
  from_bytes-uint24 n = omega arith

  extensions_of :
      (h : ClientHello)
      → length h.version ≡ 2
      → length h.random ≡ 32
      → extensions_loop sha256 (length (encode_body h)) (encode_body h) (p₂ h + 2) start
        ≡ absorb_all sha256 h.extensions start
  extensions_of h two many =
      extensions_loop-absorb_all sha256 (length (encode_body h)) h.extensions (before h) start
        (body-before h two many) (length-before h two many) (omega arith)

  -- A ClientHello that is laid out as RFC 8446 says, with a version of two bytes and a random of
  -- 32, is read to its own fields: the cipher suites normalised, the extensions taken in one by one
  -- in their order with their types normalised, the random and the session ID as digests. It is
  -- refused exactly where taking in one of its extensions is.
  pub hello-encode :
      (h : ClientHello)
      → length h.version ≡ 2
      → length h.random ≡ 32
      → hello sha256 (encode h) ≡ (absorb_all sha256 h.extensions start >>= λ s. ok (summary h s))
  unfolding hello encode summary
  hello-encode h two many =
      let n = length (encode_body h) in
      let size : from_bytes (n / 65536 ∷ n / 256 % 256 ∷ n % 256 ∷ []) + 4
          ≡ suc (suc (suc (suc n))) =
        from_bytes-uint24 n in
      rw (
        size,
        (==_iff (suc (suc (suc (suc n)))) _).1 refl,
        index-session_id h two many,
        slice-ciphers_length h two many,
        from_bytes-uint16 (2 * length h.ciphers),
        slice-ciphers h two many,
        words-be16 h.ciphers,
        index-compression h two many,
        slice-extensions_length h two many,
        from_bytes-uint16 (length (encode_extensions h.extensions)),
        (==_iff _ _).1 (sym (length-body h two many)),
        extensions_of h two many,
        slice-version h two many,
        slice-random h two many,
        slice-session_id h two many,
        slice-compression h two many,
      )
