-- ===== src/Tls/Hello/Dispatch.antt =====
-- The extension bodies that `hello` reads, one branch for each kind of extension.
use project_veil.Prelude.{
  ℕ, zero, suc, ◌+◌, List, [], ◌∷◌, ◌++◌, ◌||◌, Bytes, Text, Result, ok, err, value_error,
  out_of_fuel, ◌>>=◌, codes, hex, length, drop, slice, from_bytes, ltb, ◌==◌, if◌then◌else◌,
}
use project_veil.Tls.Hello.Vectors.{grease, words}

-- What `extensions[typ]` may hold.
pub data Value : Type 0 where
  shares : List (ℕ × ℕ) → Value
  numbers : List ℕ → Value
  variable : Value
  raw : Text → Value

module _ (sha256 : Bytes → Text) where
  -- `while offset < len(value): …` over the fuel: the shares, and the digests of the public keys.
  unfoldable pub shares_loop :
      ℕ → Bytes → ℕ → List (ℕ × ℕ) → List Text → Result (List (ℕ × ℕ) × List Text)
  shares_loop zero value offset found hashes =
      if ltb offset (length value) then err out_of_fuel else ok (found, hashes)
  shares_loop (suc fuel) value offset found hashes =
      let group = grease (from_bytes (slice value offset (offset + 2))) in
      let size = from_bytes (slice value (offset + 2) (offset + 4)) in
      let public = slice value (offset + 4) (offset + 4 + size) in
      let hashes' = if group == 0x0A0A then hashes else hashes ++ sha256 public ∷ [] in
      let rest =
        shares_loop fuel value (offset + (4 + size)) (found ++ (group, size) ∷ []) hashes' in
      if ltb offset (length value)
      then (if length public == size then rest else err (value_error (codes "truncated key share")))
      else ok (found, hashes)

  unfoldable pub dispatch : ℕ → Bytes → List Text → Result (Value × List Text)
  unfolding shares_loop
  dispatch typ value hashes =
      if typ == 51
      then (do
        (found, hashes') ← shares_loop (length value) value 2 [] hashes
        ok (shares found, hashes'))
      else if typ == 10 || typ == 13
      then (do ws ← words (drop 2 value); ok (numbers ws, hashes))
      else if typ == 43
      then (do ws ← words (drop 1 value); ok (numbers ws, hashes))
      else if typ == 21 || typ == 65037
      then ok (variable, hashes)
      else ok (raw (hex value), hashes)
