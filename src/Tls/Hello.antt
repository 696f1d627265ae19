-- ===== src/Tls/Hello.antt =====
-- `hello` of veil-core/scripts/reality_fingerprint.py: a ClientHello, read into a profile in which
-- GREASE values and fresh material are normalised. SHA-256 is a parameter.
pub mod Vectors
pub mod Dispatch
pub mod Terminates
pub mod Wire
pub mod Layout
pub mod RoundTrip
use project_veil.Prelude.{
  ℕ, zero, suc, ◌+◌, ◌≡◌, refl, List, [], ◌∷◌, ◌++◌, Bytes, Text, Dict, Result, ok, err,
  value_error, out_of_fuel, ◌>>=◌, ◌>>◌, guard, codes, decimal, hex, length, drop, slice,
  from_bytes, ltb, ◌==◌, ◌||◌, not, if◌then◌else◌, index, insert_ℕ, sort, map, ◌&&◌,
}
use project_veil.Tls.Hello.Vectors.{grease, words}
use project_veil.Tls.Hello.Dispatch.{Value, dispatch}

-- The variables of the loop over the extensions.
pub record Scan : Type 0 where
  pub extensions : List (ℕ × Value)
  pub order : List ℕ
  pub lengths : List (ℕ × ℕ)
  pub share_hashes : List Text

abbrev pub start : Scan
start = record { extensions = []; order = []; lengths = []; share_hashes = [] }

pub record Profile : Type 0 where
  pub legacy_version : Text
  pub ciphers : List ℕ
  pub session_id_length : ℕ
  pub compression : Bytes
  pub extension_ids : List ℕ
  pub extensions : List (Text × Value)

pub record Summary : Type 0 where
  pub profile : Profile
  pub extension_order : List ℕ
  pub extension_lengths : List (ℕ × ℕ)
  pub random_sha256 : Text
  pub session_id_sha256 : Text
  pub key_share_sha256 : List Text
  pub bytes : ℕ

module _ (sha256 : Bytes → Text) where
  -- One extension of type `typ`, already normalised, once its bytes are cut out.
  unfoldable pub absorb : ℕ → Bytes → Scan → Result Scan
  absorb typ value s =
      if typ == 0x0A0A
      then ok (record s {
        order = s.order ++ typ ∷ [];
        lengths = insert_ℕ typ (length value) s.lengths;
      })
      else do
        (v, hashes) ← dispatch sha256 typ value s.share_hashes
        ok (record {
          extensions = insert_ℕ typ v s.extensions;
          order = s.order ++ typ ∷ [];
          lengths = insert_ℕ typ (length value) s.lengths;
          share_hashes = hashes;
        })

  -- `while p < len(body): …` over the fuel
  unfoldable pub extensions_loop : ℕ → Bytes → ℕ → Scan → Result Scan
  extensions_loop zero body p s = if ltb p (length body) then err out_of_fuel else ok s
  extensions_loop (suc fuel) body p s =
      let typ = grease (from_bytes (slice body p (p + 2))) in
      let n = from_bytes (slice body (p + 2) (p + 4)) in
      let value = slice body (p + 4) (p + 4 + n) in
      let rest = λ (s' : Scan). extensions_loop fuel body (p + (4 + n)) s' in
      if ltb p (length body)
      then (if length value == n
          then absorb typ value s >>= rest
          else err (value_error (codes "truncated extension")))
      else ok s

  unfoldable pub hello : Bytes → Result Summary
  unfolding extensions_loop absorb
  hello wire = do
    first ← index wire 0
    guard (first == 1 && from_bytes (slice wire 1 4) + 4 == length wire)
        (value_error (codes "expected one complete ClientHello"))
    let body = drop 4 wire
    let random = slice body 2 34
    sid_len ← index body 34
    let sid = slice body 35 (35 + sid_len)
    let p = 35 + sid_len
    let n = from_bytes (slice body p (p + 2))
    ciphers ← words (slice body (p + 2) (p + 2 + n))
    let p₁ = p + (2 + n)
    m ← index body p₁
    let compression = slice body (p₁ + 1) (p₁ + 1 + m)
    let p₂ = p₁ + (1 + m)
    let k = from_bytes (slice body p₂ (p₂ + 2))
    guard (p₂ + 2 + k == length body) (value_error (codes "extension length mismatch"))
    s ← extensions_loop (length body) body (p₂ + 2) start
    ok (record {
      profile = record {
        legacy_version = hex (slice body 0 2);
        ciphers = ciphers;
        session_id_length = sid_len;
        compression = compression;
        extension_ids = sort s.order;
        extensions = map (λ (k, v). (decimal k, v)) s.extensions;
      };
      extension_order = s.order;
      extension_lengths = s.lengths;
      random_sha256 = sha256 random;
      session_id_sha256 = sha256 sid;
      key_share_sha256 = s.share_hashes;
      bytes = length wire;
    })
