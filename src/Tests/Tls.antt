-- ===== src/Tests/Tls.antt =====
-- Runs and instances for the readers of TLS captures.
use project_veil.Prelude.{
  ℕ, ◌<◌, ◌≡◌, ◌≢◌, ◌↔◌, ◌⊎◌, refl, List, [], ◌∷◌, map, take, drop, arith, Bytes, Text, ok, err,
  out_of_fuel, value_error, codes, length, ◌>>=◌, hex, ◌≤◌, from_bytes,
}
use project_veil.Tls.Record.{Record, records, sample_records}
use project_veil.Tls.Record.Frames.{Frames, IsPartial}
use project_veil.Tls.Record.Strict.{records_iff_Frames, records-ne-out_of_fuel}
use project_veil.Tls.Record.Prefix.{shape, sample_records_lem}
use project_veil.Tls.Record.Agree.{sample_records-records}
use project_veil.Tls.Histogram.{histogram, count_of, count_key, histogram-sample_records}
use project_veil.Tls.Hello.{start, hello}
use project_veil.Tls.Hello.Vectors.{grease, grease_value, grease_lem, words, be16, words-be16}
use project_veil.Tls.Hello.Terminates.{hello-ne-out_of_fuel}
use project_veil.Tls.Hello.Wire.{ClientHello, encode, absorb_all}
use project_veil.Tls.Hello.RoundTrip.{summary, hello-encode}

-- A handshake record of two bytes and an application record of none.
abbrev capture : Bytes
capture = 22 ∷ 3 ∷ 1 ∷ 0 ∷ 2 ∷ 7 ∷ 9 ∷ 23 ∷ 3 ∷ 3 ∷ 0 ∷ 0 ∷ []

abbrev captured : List Record
captured = (22, 7 ∷ 9 ∷ []) ∷ (23, []) ∷ []

records_run : records capture ≡ ok captured
unfolding records from_bytes
records_run = refl

records_truncated : records (take 6 capture) ≡ err (value_error (codes "truncated TLS record"))
unfolding records from_bytes
records_truncated = refl

sample_records_run : sample_records (take 9 capture) ≡ ((22, 2) ∷ [], 7)
unfolding sample_records from_bytes
sample_records_run = refl

records_iff_Frames_example : (records capture ≡ ok captured) ↔ Frames capture captured []
records_iff_Frames_example = records_iff_Frames capture captured

records-ne-out_of_fuel_example : records capture ≢ err out_of_fuel
records-ne-out_of_fuel_example = records-ne-out_of_fuel capture

sample_records_lem_example :
    (rs : List Record) × ((sample_records capture).0 ≡ map shape rs)
    × Frames capture rs (drop (sample_records capture).1 capture)
    × IsPartial (drop (sample_records capture).1 capture)
    × ((sample_records capture).1 ≤ length capture)
sample_records_lem_example = sample_records_lem capture

sample_records-records_example :
    ((sample_records capture).0 ≡ map shape captured)
    × ((sample_records capture).1 ≡ length capture)
sample_records-records_example = sample_records-records capture captured records_run

histogram-sample_records_example :
    ((histogram capture).parsed_bytes ≡ (sample_records capture).1)
    × ((histogram capture).first_records ≡ take 24 (sample_records capture).0)
    × ((k : Text)
        → count_of k (histogram capture).record_histogram ≡ count_key k (sample_records capture).0)
histogram-sample_records_example = histogram-sample_records capture

grease_lem_example :
    ((k : ℕ) × (k < 16) × (0x3A3A ≡ grease_value k) × (grease 0x3A3A ≡ 0x0A0A))
    ⊎ (((k : ℕ) → k < 16 → 0x3A3A ≢ grease_value k) × (grease 0x3A3A ≡ 0x3A3A))
grease_lem_example = grease_lem 0x3A3A (omega arith)

words-be16_example : words (be16 (0x1301 ∷ 0x5A5A ∷ [])) ≡ ok (map grease (0x1301 ∷ 0x5A5A ∷ []))
words-be16_example = words-be16 (0x1301 ∷ 0x5A5A ∷ [])

-- A ClientHello with one cipher suite, supported versions and a GREASE extension.
abbrev small_hello : ClientHello
small_hello = record {
  version = 3 ∷ 3 ∷ [];
  random =
      0 ∷ 1 ∷ 2 ∷ 3 ∷ 4 ∷ 5 ∷ 6 ∷ 7 ∷ 0 ∷ 1 ∷ 2 ∷ 3 ∷ 4 ∷ 5 ∷ 6 ∷ 7 ∷ 0 ∷ 1 ∷ 2 ∷ 3 ∷ 4 ∷ 5 ∷ 6 ∷ 7
      ∷ 0 ∷ 1 ∷ 2 ∷ 3 ∷ 4 ∷ 5 ∷ 6 ∷ 7 ∷ [];
  session_id = 8 ∷ 8 ∷ [];
  ciphers = 0x1301 ∷ [];
  compression = 0 ∷ [];
  extensions = (43, 2 ∷ 3 ∷ 4 ∷ []) ∷ (0x2A2A, []) ∷ [];
}

hello-ne-out_of_fuel_example : hello hex (encode small_hello) ≢ err out_of_fuel
hello-ne-out_of_fuel_example = hello-ne-out_of_fuel hex (encode small_hello)

hello-encode_example :
    hello hex (encode small_hello)
    ≡ (absorb_all hex small_hello.extensions start >>= λ s. ok (summary hex small_hello s))
hello-encode_example = hello-encode hex small_hello refl refl
