-- ===== src/Bench/Probe/Laws.antt =====
-- The connections start no process.
use project_veil.Prelude.{ℕ, zero, suc, List, Text, Bytes, Option, none, some}
use project_veil.Exec.{Locals, Exec}
use project_veil.Exec.Keeps.{Keeps, keeps_rules}
use project_veil.Bench.Probe.{
  Kit, read_loop, shut, talk, with_socket, tls_fetch, receive_some, go_on, sample_read, send_some,
  sample,
}

module _ {own : Locals → List ℕ} {before : List ℕ} where
  Keeps-read_loop : (fuel c : ℕ) (got : Bytes) → Keeps own before (read_loop fuel c got)
  unfolding read_loop
  Keeps-read_loop zero c got = search (keeps_rules)
  Keeps-read_loop (suc fuel) c got =
      search (keeps_rules, λ (b : Bytes). Keeps-read_loop fuel c b) depth 20

  Keeps-shut : (c : ℕ) → Keeps own before (shut c)
  unfolding shut
  Keeps-shut c = search (keeps_rules) depth 10

  Keeps-talk : (kit : Kit) (pause_ms c : ℕ) → Keeps own before (talk kit pause_ms c)
  unfolding talk
  Keeps-talk kit pause_ms c = search (keeps_rules, Keeps-read_loop, Keeps-shut) depth 30

  Keeps-with_socket :
      {A : Type 0} (c : ℕ) (m : Exec A) → Keeps own before m → Keeps own before (with_socket c m)
  unfolding with_socket
  Keeps-with_socket c m k = search (keeps_rules, k)

  pub Keeps-tls_fetch :
      (kit : Kit) (port : ℕ) (cert : Text) (pause_ms : ℕ)
      → Keeps own before (tls_fetch kit port cert pause_ms)
  unfolding tls_fetch
  Keeps-tls_fetch kit port cert pause_ms =
      search (keeps_rules, Keeps-with_socket, Keeps-talk) depth 20

  Keeps-receive_some : (c n : ℕ) → Keeps own before (receive_some c n)
  unfolding receive_some
  Keeps-receive_some c n = search (keeps_rules) depth 20

  Keeps-go_on :
      (r : Bytes × Option Text) (got : Bytes) (rest : Bytes → Exec (Bytes × Text))
      → ((b : Bytes) → Keeps own before (rest b))
      → Keeps own before (go_on r got rest)
  unfolding go_on
  Keeps-go_on (part, none) got rest k = k _
  Keeps-go_on (part, some outcome) got rest k = search (keeps_rules)

  Keeps-sample_read : (fuel c : ℕ) (got : Bytes) → Keeps own before (sample_read fuel c got)
  unfolding sample_read
  Keeps-sample_read zero c got = search (keeps_rules)
  Keeps-sample_read (suc fuel) c got =
      search
        (keeps_rules, Keeps-receive_some, Keeps-go_on, λ (b : Bytes). Keeps-sample_read fuel c b)
        depth 20

  Keeps-send_some : (c : ℕ) (payload : Bytes) → Keeps own before (send_some c payload)
  unfolding send_some
  Keeps-send_some c payload = search (keeps_rules)

  pub Keeps-sample :
      (kit : Kit) (port : ℕ) (payload : Bytes) → Keeps own before (sample kit port payload)
  unfolding sample
  Keeps-sample kit port payload =
      search (keeps_rules, Keeps-with_socket, Keeps-sample_read, Keeps-send_some) depth 20
