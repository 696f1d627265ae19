-- ===== src/Bench/Probe/Observe.antt =====
-- The inputs of `run_profile` of veil-core/scripts/probe.py, sent to each endpoint; the references are
-- started anew where the independent server was asked.
use project_veil.Prelude.{
  ℕ, zero, suc, ◌+◌, ◌-◌, ◌%◌, Bool, not, ◌&&◌, List, [], ◌∷◌, ◌++◌, Text, Bytes, Dict, codes,
  length, take, drop, ltb, ◌==◌, text_eq, if◌then◌else◌,
}
use project_veil.Exec.{Exec, pure, ◌>>=◌}
use project_veil.Bench.Json.{Json, dict, list}
use project_veil.Bench.Probe.{Kit, sample}
use project_veil.Tls.Record.{length_at, byte_at}
use project_veil.Bench.Probe.Profile.{Job, Ports, Refs, reset_reference, endpoints}

-- `captured[: 5 + int.from_bytes(captured[3:5], "big")]`
unfoldable pub first_record : Bytes → Bytes
first_record captured = take (5 + length_at captured 0) captured

unfoldable pub is_hello : Bytes → Bool
is_hello hello = not (ltb (length hello) 71) && byte_at hello 0 == 22

-- `b ^ 1`
abbrev pub flip_last : ℕ → ℕ
flip_last b = if b % 2 == 0 then b + 1 else b - 1

-- `changed[44] ^= 1`
unfoldable pub flipped : Bytes → Bytes
flipped hello = take 44 hello ++ (flip_last (byte_at hello 44) ∷ drop 45 hello)

unfoldable pub inputs : Bytes → List (Text × Bytes)
unfolding flipped
inputs hello =
    (codes "empty", [])
    ∷ (codes "truncated_record", 22 ∷ 3 ∷ 1 ∷ 0 ∷ [])
    ∷ (codes "invalid_header", codes "not a TLS ClientHello")
    ∷ (codes "captured_reality_hello", hello)
    ∷ (codes "modified_reality_auth", flipped hello)
    ∷ []

-- One input at one endpoint, `repeats` times.
unfoldable pub observe : Kit → Job → Ports → ℕ → Text × ℕ → Bytes → Refs → Exec (List Json × Refs)
unfolding reset_reference
observe kit j p zero e payload r = pure ([], r)
observe kit j p (suc repeats) (name, port) payload r = do
  seen ← sample kit port payload
  r' ← if text_eq name (codes "upstream_reality") then reset_reference j p r else pure r
  (more, r'') ← observe kit j p repeats (name, port) payload r'
  pure (seen ∷ more, r'')

unfoldable pub observe_each :
    Kit → Job → Ports → List (Text × ℕ) → Bytes → Refs → Exec (Dict Json × Refs)
unfolding observe
observe_each kit j p [] payload r = pure ([], r)
observe_each kit j p ((name, port) ∷ es) payload r = do
  (seen, r') ← observe kit j p j.repeats (name, port) payload r
  (more, r'') ← observe_each kit j p es payload r'
  pure ((name, list seen) ∷ more, r'')

unfoldable pub observe_all :
    Kit → Job → Ports → List (Text × Bytes) → Refs → Exec (Dict Json × Refs)
unfolding observe_each endpoints
observe_all kit j p [] r = pure ([], r)
observe_all kit j p ((name, payload) ∷ rest) r = do
  (seen, r') ← observe_each kit j p (endpoints p) payload r
  (more, r'') ← observe_all kit j p rest r'
  pure ((name, dict seen) ∷ more, r'')
