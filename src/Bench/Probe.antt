-- ===== src/Bench/Probe.antt =====
-- The two connections that veil-core/scripts/probe.py makes to an endpoint: `tls_fetch` and `sample`.
pub mod Laws
pub mod Profile
pub mod Observe
pub mod Run
use project_veil.Prelude.{
  ℕ, zero, suc, ◌-◌, Bool, true, false, List, [], ◌∷◌, ◌++◌, Option, none, some, Text, Bytes, codes,
  split_at, map, Error, timeout_error, connection_reset_error, out_of_fuel, Result, ok, err, length,
  ltb, ◌==◌, if◌then◌else◌,
}
use project_veil.Exec.Calls.{
  connect, send, recv, close, sleep_ms, clock, tls_context, wrap_with, peer_certificate, tls_cipher,
  tls_version, tls_alpn, unwrap,
}
use project_veil.Exec.{Exec, pure, raise, ◌>>=◌, ◌>>◌, ask, try_finally, try_except}
use project_veil.Bench.Json.{Json, text, num, dict, list}
use project_veil.Bench.Processes.{is_os_error}
use project_veil.Tls.Record.{Shape, sample_records}

-- What the script takes from Python's libraries: a digest in hexadecimal, bytes as a text, the
-- JSON text of a document with sorted keys, the seconds between two readings of the clock, and the
-- name and the message of an exception.
pub record Kit : Type 0 where
  pub sha256 : Bytes → Text
  pub decode : Bytes → Text
  pub dumps : Json → Text
  pub seconds : ℕ → ℕ → Json
  pub describe : Error → Json

-- `data.split(b"\r\n")[0]`
unfoldable pub first_line : Bytes → Bytes
first_line [] = []
first_line (c ∷ []) = c ∷ []
first_line (c ∷ d ∷ s) =
    let rest = first_line (d ∷ s) in
    if c == 13 then (if d == 10 then [] else c ∷ rest) else c ∷ rest

-- The response; each round gets a byte at least, so the limit is enough fuel.
unfoldable pub read_loop : ℕ → ℕ → Bytes → Exec Bytes
read_loop zero c got = if ltb (length got) 65536 then raise out_of_fuel else pure got
read_loop (suc fuel) c got =
    if ltb (length got) 65536
    then (ask (recv c 4096) >>= λ part.
        if length part == 0 then pure got else read_loop fuel c (got ++ part))
    else pure got

unfoldable pub shut : ℕ → Exec (Unit {0})
shut c = try_except (ask (unwrap c) >>= λ raw. ask (close raw)) is_os_error (λ _. pure tt)

unfoldable pub talk : Kit → ℕ → ℕ → Exec Json
unfolding first_line read_loop shut
talk kit pause_ms c = do
  der ← ask (peer_certificate c)
  cipher ← ask (tls_cipher c)
  version ← ask (tls_version c)
  alpn ← ask (tls_alpn c)
  ask (sleep_ms pause_ms)
  ask (send c (codes "GET / HTTP/1.1\r\nHost: cover.test\r\nConnection: close\r\n\r\n"))
  got ← read_loop 65536 c []
  shut c
  pure (
      dict (
        (codes "certificate_sha256", text (kit.sha256 der))
        ∷ (codes "version", text version)
        ∷ (codes "cipher", text cipher)
        ∷ (codes "alpn", alpn)
        ∷ (codes "status", text (kit.decode (first_line got)))
        ∷ []))

-- `with socket: m`
unfoldable pub with_socket : {A : Type 0} → ℕ → Exec A → Exec A
with_socket c m = try_finally m (ask (close c))

unfoldable pub tls_fetch : Kit → ℕ → Text → ℕ → Exec Json
unfolding talk with_socket
tls_fetch kit port cert pause_ms = do
  context ← ask (tls_context cert)
  raw ← ask (connect (codes "127.0.0.1") port 3000)
  with_socket raw
      (do c ← ask (wrap_with context raw (codes "cover.test")); with_socket c (talk kit pause_ms c))

-- The exceptions of `recv` that end a sample.
abbrev pub ends_sample : Error → Bool
ends_sample (timeout_error _) = true
ends_sample connection_reset_error = true
ends_sample _ = false

abbrev pub outcome_of : Error → Text
outcome_of connection_reset_error = codes "reset"
outcome_of _ = codes "timeout"

-- One `recv`: its bytes, and the outcome where the loop ends.
unfoldable pub receive_some : ℕ → ℕ → Exec (Bytes × Option Text)
receive_some c n =
    try_except
      (ask (recv c n) >>= λ part.
        if length part == 0 then pure ([], some (codes "eof")) else pure (part, none))
      ends_sample (λ e. pure ([], some (outcome_of e)))

unfoldable pub go_on :
    Bytes × Option Text → Bytes → (Bytes → Exec (Bytes × Text)) → Exec (Bytes × Text)
go_on (part, none) got rest = rest (got ++ part)
go_on (part, some outcome) got rest = pure (got, outcome)

-- A sample of 64 KiB has the outcome that the function starts with.
unfoldable pub sample_read : ℕ → ℕ → Bytes → Exec (Bytes × Text)
unfolding receive_some go_on
sample_read zero c got =
    if ltb (length got) 65536 then raise out_of_fuel else pure (got, codes "timeout")
sample_read (suc fuel) c got =
    if ltb (length got) 65536
    then (receive_some c (65536 - length got) >>= λ r. go_on r got (sample_read fuel c))
    else pure (got, codes "timeout")

unfoldable pub shape_json : Shape → Json
shape_json (typ, n) = dict ((codes "type", num typ) ∷ (codes "length", num n) ∷ [])

unfoldable pub send_some : ℕ → Bytes → Exec (Unit {0})
send_some c payload = if length payload == 0 then pure tt else ask (send c payload)

unfoldable pub sample : Kit → ℕ → Bytes → Exec Json
unfolding sample_read shape_json send_some with_socket
sample kit port payload = do
  started ← ask clock
  c ← ask (connect (codes "127.0.0.1") port 2000)
  (got, outcome) ← with_socket c (send_some c payload >> sample_read 65536 c [])
  now ← ask clock
  pure (
      dict (
        (codes "bytes", num (length got))
        ∷ (codes "records", list (map shape_json (sample_records got).0))
        ∷ (codes "outcome", text outcome)
        ∷ (codes "seconds", kit.seconds started now)
        ∷ []))
