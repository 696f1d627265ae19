-- ===== src/Bench/Traffic.antt =====
-- `trial` of veil-core/scripts/traffic_shapes.py: requests over HTTPS, alone or through the proxies,
-- with a capture in between.
pub mod Laws
use project_veil.Prelude.{
  ℕ, zero, suc, ◌+◌, ◌-◌, ◌*◌, ◌/◌, ◌%◌, ◌≡◌, Bool, true, false, not, ◌||◌, ◌&&◌, List, [], ◌∷◌,
  ◌++◌, Option, none, some, Text, Bytes, codes, decimal, Error, eof_error, value_error,
  timeout_error, runtime_error, out_of_fuel, Result, ok, err, length, replicate, take, contains,
  ltb, ◌==◌, text_eq, if◌then◌else◌,
}
use project_veil.Exec.Calls.{
  mkdir, connect, send, recv, close, wrap_tls, http_response, free_port, sleep_ms, tap_port,
  tap_done, tap_capture, read_text,
}
use project_veil.Exec.{
  Exec, pure, raise, lift, ◌>>=◌, ◌>>◌, check, ask, for_each, try_finally, try_except, scoped,
}
use project_veil.Bench.Json.{Json, text, num, boolean, set_key, set_inner}
use project_veil.Bench.Configurations.{Fixture}
use project_veil.Bench.Processes.{stop, wait_port}
use project_veil.Bench.Peers.{configure, with_binary, edit_json}
use project_veil.Bench.Stack.{exit_stack, launch_stacked, open_stacked_tap}
use project_veil.Tls.Shapes.{Shapes, shapes}

-- `receive`: each round gets a byte at least, so the size is enough fuel.
unfoldable pub receive_loop : ℕ → ℕ → ℕ → Bytes → Exec Bytes
receive_loop zero c size got = if ltb (length got) size then raise out_of_fuel else pure got
receive_loop (suc fuel) c size got =
    if ltb (length got) size
    then (do
      b ← ask (recv c (size - length got))
      check (ltb 0 (length b)) (eof_error (codes "SOCKS handshake truncated"))
      receive_loop fuel c size (got ++ b))
    else pure got

unfoldable pub receive : ℕ → ℕ → Exec Bytes
unfolding receive_loop
receive c size = receive_loop size c size []

-- `int.to_bytes(2, "big")`
abbrev pub big_endian : ℕ → Bytes
big_endian n = n / 256 ∷ n % 256 ∷ []

-- The SOCKS requests for a target on 127.0.0.1.
unfoldable pub open_socks : ℕ → ℕ → Exec (Unit {0})
unfolding receive
open_socks c target = do
  ask (send c (5 ∷ 1 ∷ 0 ∷ []))
  choice ← receive c 2
  check (text_eq choice (5 ∷ 0 ∷ [])) (value_error (codes "SOCKS authentication"))
  ask (send c (5 ∷ 1 ∷ 0 ∷ 1 ∷ 127 ∷ 0 ∷ 0 ∷ 1 ∷ big_endian target))
  reply ← receive c 10
  check (text_eq (take 4 reply) (5 ∷ 0 ∷ 0 ∷ 1 ∷ [])) (value_error (codes "SOCKS open failed"))

-- `connect`: the socket is closed where anything is raised.
unfoldable pub connect_tls : ℕ → Option ℕ → Exec ℕ
unfolding open_socks
connect_tls port target = do
  c ← ask (connect (codes "127.0.0.1") port 5000)
  try_except
      ((elim target as (λ _. Exec (Unit {0})) [ none ↦ pure tt | some t ↦ open_socks c t ])
        >> ask (wrap_tls c (codes "cover.test")))
      (λ _. true) (λ e. ask (close c) >> raise e)

unfoldable pub request : ℕ → Bool → Text
request size last =
    codes "GET /"
    ++ (decimal size
        ++ (codes " HTTP/1.1\r\nHost: cover.test\r\nConnection: "
            ++ ((if last then codes "close" else codes "keep-alive") ++ codes "\r\n\r\n")))

unfoldable pub fetch : ℕ → ℕ → Bool → Exec (Unit {0})
unfolding request
fetch c size last = do
  ask (send c (request size last))
  (status, body) ← ask (http_response c)
  check (status == 200 && text_eq body (replicate size 0x78))
      (value_error (codes "HTTPS body mismatch"))

-- One connection for all sizes; the last request closes it.
unfoldable pub fetch_all : ℕ → List ℕ → Exec (Unit {0})
unfolding fetch
fetch_all c [] = pure tt
fetch_all c (size ∷ []) = fetch c size true
fetch_all c (size ∷ next ∷ sizes) = fetch c size false >> fetch_all c (next ∷ sizes)

-- `with connect(…) as c: m`
unfoldable pub with_tls : ℕ → Option ℕ → (ℕ → Exec (Unit {0})) → Exec (Unit {0})
unfolding connect_tls
with_tls port target m = do c ← connect_tls port target; try_finally (m c) (ask (close c))

pub record Job : Type 0 where
  pub root : Text
  pub fixture : Fixture
  pub group : Text
  pub binaries : Text
  pub cover : ℕ
  pub sizes : List ℕ
  pub folder : Text

-- The change of a role's document.
unfoldable pub set_idle : Bool → Json → Result Json
set_idle is_client cfg =
    elim (set_inner (codes "tls") (codes "record_padding") (boolean true) cfg) [
      | err e ↦ err e
      | ok cfg1 ↦ elim (set_key (codes "max_idle") (num 1) cfg1) [
        | err e ↦ err e
        | ok cfg2 ↦
            if is_client
            then set_inner (codes "tls") (codes "fingerprint") (text (codes "chrome149")) cfg2
            else ok cfg2
      ]
    ]

unfoldable pub direct : Job → Exec ℕ
unfolding with_tls fetch_all
direct j = do
  tap ← open_stacked_tap j.cover
  port ← ask (tap_port tap)
  with_tls port none (λ c. fetch_all c j.sizes)
  pure tap

-- One stream after the other, each with its own TLS connection inside.
unfoldable pub fetch_streams : ℕ → ℕ → List ℕ → Exec (Unit {0})
unfolding with_tls fetch
fetch_streams cp cover [] = pure tt
fetch_streams cp cover (size ∷ sizes) = do
  with_tls cp (some cover) (λ c. fetch c size true)
  ask (sleep_ms 20)
  fetch_streams cp cover sizes

unfoldable pub is_reused : Text → ℕ → Bool
is_reused log n =
    contains log (codes "completed=" ++ decimal n) && contains log (codes "accepted=2 ")

unfoldable pub proxied : Job → Exec ℕ
unfolding set_idle fetch_streams is_reused
proxied j = do
  sp ← ask free_port
  cp ← ask free_port
  (sc, cc) ← configure j.root j.fixture (codes "veil-opt-reality") sp cp j.cover
  edit_json (j.fixture.folder ++ codes "/client.json") (set_idle true)
  edit_json (j.fixture.folder ++ codes "/server.json") (set_idle false)
  server ← launch_stacked j.folder (with_binary (j.binaries ++ codes "/veil-openssl") sc)
  wait_port sp server
  tap ← open_stacked_tap sp
  port ← ask (tap_port tap)
  edit_json (j.fixture.folder ++ codes "/client.json")
      (set_key (codes "server") (text (codes "127.0.0.1:" ++ decimal port)))
  client ← launch_stacked j.folder (with_binary (j.binaries ++ codes "/veil-batch") cc)
  wait_port cp client
  fetch_streams cp j.cover j.sizes
  stop client
  stop server
  log ← ask (read_text (j.folder ++ codes "/process-0.log"))
  check (is_reused log (length j.sizes))
      (value_error (codes "expected one physical tunnel and complete stream reuse: " ++ log))
  pure tap

unfoldable pub body : (ℕ → ℕ → ℕ) → Job → Exec Shapes
unfolding direct proxied
body elapsed_ms j = do
  tap ← if text_eq j.group (codes "https") then direct j else proxied j
  done ← ask (tap_done tap 5)
  check done (timeout_error (codes "capture did not close"))
  captured ← ask (tap_capture tap)
  lift (shapes elapsed_ms captured)

unfoldable pub trial : (ℕ → ℕ → ℕ) → Job → Exec Shapes
unfolding body
trial elapsed_ms j = ask (mkdir j.folder) >> scoped (exit_stack (body elapsed_ms j))
