-- ===== src/Tests/Blocks.antt =====
-- The building blocks of the trials at one process and one log.
use project_veil.Prelude.{
  ℕ, ◌≡◌, refl, true, false, ◌++◌, some, ok, codes, decimal, decimal_loop, Text, contains,
  starts_with,
}
use project_veil.Exec.Held.{mem}
use project_veil.Bench.Processes.{stop}
use project_veil.Bench.Processes.Stops.{stop_ends}
use project_veil.Bench.Completion.{Stats, is_digit, search_stats}
use project_veil.Bench.Completion.Printed.{search_stats-stopped_line}
use project_veil.Tests.Calm.{calm-Docile, begin}

stop_ends_example :
    ((stop 0 begin).0 ≡ ok tt)
    × (mem 0 (stop 0 begin).1.held ≡ false)
    × ((h : ℕ) → mem h (stop 0 begin).1.held ≡ true → mem h begin.held ≡ true)
stop_ends_example = stop_ends 0 begin calm-Docile

abbrev counts : Stats
counts = record { accepted = 2; rejected = 0; completed = 17; failed = 1 }

-- What the server logs before it serves.
abbrev listening : Text
listening =
    codes
      "2026/01/02 03:04:05 Veil v0.3 server listening on 127.0.0.1:1 (tls)\n2026/01/02 03:04:06 "

search_stats-stopped_line_example :
    search_stats (listening ++ codes "stopped accepted=2 rejected=0 completed=17 failed=1\n")
    ≡ some counts
unfolding contains starts_with is_digit decimal decimal_loop
search_stats-stopped_line_example =
    search_stats-stopped_line listening counts (codes "\n") refl refl
