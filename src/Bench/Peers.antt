-- ===== src/Bench/Peers.antt =====
-- The helpers that the trials of the benchmarks share.
pub mod Laws
use project_veil.Prelude.{
  ℕ, zero, suc, ◌+◌, ◌*◌, ◌≡◌, Bool, true, false, not, ◌||◌, ◌&&◌, List, [], ◌∷◌, ◌++◌, Option,
  none, some, Text, Dict, codes, decimal, Error, Result, ok, err, runtime_error, value_error,
  index_error, index, ◌==◌, if◌then◌else◌, or_raise, insert,
}
use project_veil.Exec.Calls.{write_json, read_json, chmod, free_port, read_text, sysconf}
use project_veil.Exec.{Exec, pure, raise, lift, ◌>>=◌, ◌>>◌, check, ask}
use project_veil.Bench.Json.{Json, num, set_inner, get_key}
use project_veil.Bench.Completion.{Stats, number, search_stats}
use project_veil.Bench.Configurations.{Fixture, configurations}
use project_veil.Bench.Perf.{Numbers}

-- The reference server that all trials start.
abbrev pub cover_command : Fixture → ℕ → Text → List Text
cover_command f port suite =
    codes "openssl"
    ∷ codes "s_server"
    ∷ codes "-accept"
    ∷ (codes "127.0.0.1:" ++ decimal port)
    ∷ codes "-cert"
    ∷ f.cert
    ∷ codes "-key"
    ∷ f.key
    ∷ codes "-tls1_3"
    ∷ codes "-ciphersuites"
    ∷ suite
    ∷ codes "-groups"
    ∷ codes "X25519"
    ∷ codes "-www"
    ∷ codes "-alpn"
    ∷ codes "http/1.1"
    ∷ []

abbrev pub aes128 : Text
aes128 = codes "TLS_AES_128_GCM_SHA256"

abbrev pub backend_command : Text → ℕ → List Text
backend_command peer port =
    peer
    ∷ codes "-role"
    ∷ codes "backend"
    ∷ codes "-listen"
    ∷ (codes "127.0.0.1:" ++ decimal port)
    ∷ []

-- `configurations` with its two calls of `save`
unfoldable pub configure : Text → Fixture → Text → ℕ → ℕ → ℕ → Exec (List Text × List Text)
configure root f variant sp cp cover = do
  let c = configurations root f variant sp cp cover
  ask (write_json c.server_file.0 c.server_file.1)
  ask (chmod c.server_file.0 0x180)
  ask (write_json c.client_file.0 c.client_file.1)
  ask (chmod c.client_file.0 0x180)
  pure (c.server_command, c.client_command)

-- `cmd[0] = binary`
abbrev pub with_binary : Text → List Text → List Text
with_binary binary [] = []
with_binary binary (_ ∷ args) = binary ∷ args

-- Reading a document, changing it and writing it back.
unfoldable pub edit_json : Text → (Json → Result Json) → Exec (Unit {0})
edit_json path change = do
  cfg ← ask (read_json path)
  cfg' ← lift (change cfg)
  ask (write_json path cfg')

-- `text.split()`
unfoldable pub is_space : ℕ → Bool
is_space c = c == 32 || c == 10 || c == 9 || c == 13

unfoldable pub fields_loop : Text → Text → List Text
unfolding is_space
fields_loop [] [] = []
fields_loop [] (c ∷ part) = (c ∷ part) ∷ []
fields_loop (c ∷ s) part = elim (is_space c) [
  | true ↦ elim part [ [] ↦ fields_loop s [] | d ∷ ds ↦ (d ∷ ds) ∷ fields_loop s [] ]
  | false ↦ fields_loop s (part ++ c ∷ [])
]

unfoldable pub split_fields : Text → List Text
unfolding fields_loop
split_fields s = fields_loop s []

-- `int(s)` for a text of digits
unfoldable pub int_of : Text → Result ℕ
int_of s = elim (number s) [
  | some (n, []) ↦ ok n
  | some (n, c ∷ rest) ↦ err (value_error (codes "invalid literal for int()"))
  | none ↦ err (value_error (codes "invalid literal for int()"))
]

-- `rss(pid)`
unfoldable pub rss : ℕ → Exec ℕ
unfolding split_fields int_of
rss pid = do
  statm ← ask (read_text (codes "/proc/" ++ (decimal pid ++ codes "/statm")))
  pages ← lift (index (split_fields statm) 1)
  n ← lift (int_of pages)
  size ← ask (sysconf (codes "SC_PAGE_SIZE"))
  pure (n * size)

-- `text.split(") ", 1)[1]`
unfoldable pub behind_paren : Text → Result Text
behind_paren [] = err index_error
behind_paren (c ∷ []) = err index_error
behind_paren (c ∷ d ∷ s) =
    let rest = behind_paren (d ∷ s) in if c == 0x29 && d == 0x20 then ok s else rest

-- `cpu(pid)`
unfoldable pub cpu : Numbers → ℕ → Exec Json
unfolding split_fields int_of behind_paren
cpu nums pid = do
  stat ← ask (read_text (codes "/proc/" ++ (decimal pid ++ codes "/stat")))
  rest ← lift (behind_paren stat)
  user ← lift (index (split_fields rest) 11)
  system ← lift (index (split_fields rest) 12)
  m ← lift (int_of user)
  n ← lift (int_of system)
  ticks ← ask (sysconf (codes "SC_CLK_TCK"))
  lift (nums.divide (num (m + n)) (num ticks))

-- The completion counters in a log file.
unfoldable pub read_stats : Text → Text → Exec Stats
read_stats path message = do
  log ← ask (read_text path)
  lift (or_raise (search_stats log) (runtime_error message))
