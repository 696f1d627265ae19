-- ===== src/Tests/Bench.antt =====
-- Runs and instances for the documents of the benchmarks.
use project_veil.Prelude.{
  ◌≡◌, refl, [], ◌∷◌, codes, starts_with, true, false, ends_with, contains, decimal,
}
use project_veil.Bench.Configurations.{Fixture, Configured, configurations}
use project_veil.Bench.Configurations.Pairs.{
  AreVeil, AreOther, with_private, configurations-AreVeil, configurations-AreOther,
}

abbrev small : Fixture
small = record {
  keys = record {
    secret = codes "s";
    reality_private_key = codes "k";
    reality_public_key = codes "p";
    short_id = codes "i";
  };
  cert = codes "/f/cert.pem";
  key = codes "/f/key.pem";
  folder = codes "/f";
}

abbrev veil : Configured
veil = configurations (codes "/r") small (codes "veil-opt-reality") 4001 4002 4003

abbrev other : Configured
other = configurations (codes "/r") small (codes "anytls-native-reality-previous") 4001 4002 4003

veil_command :
    veil.server_command
    ≡ codes "/r/.build/veil-openssl" ∷ codes "-config" ∷ codes "/f/server.json" ∷ []
unfolding configurations starts_with ends_with contains decimal
veil_command = refl

other_command :
    other.client_command
    ≡ codes "/r/.build/previous/singbox-native"
      ∷ codes "run"
      ∷ codes "-c"
      ∷ codes "/f/client.json"
      ∷ []
unfolding configurations starts_with ends_with contains decimal
other_command = refl

veil_variant : starts_with (codes "veil-opt-reality") (codes "veil") ≡ true
unfolding starts_with
veil_variant = refl

other_variant : starts_with (codes "anytls-native-reality-previous") (codes "veil") ≡ false
unfolding starts_with
other_variant = refl

configurations-AreVeil_example :
    AreVeil small true veil.server_file.1 veil.client_file.1
    × ((configurations
          (codes "/r")
          (with_private (codes "x") (codes "y") small)
          (codes "veil-opt-reality")
          4001
          4002
          4003).client_file
        ≡ veil.client_file)
    × ((configurations
          (codes "/r")
          (with_private (codes "x") (codes "y") small)
          (codes "veil-opt-reality")
          4001
          4002
          4003).client_command
        ≡ veil.client_command)
unfolding contains
configurations-AreVeil_example =
    configurations-AreVeil (codes "/r") small (codes "veil-opt-reality") 4001 4002 4003 (codes "x")
      (codes "y") veil_variant

configurations-AreOther_example :
    AreOther small true other.server_file.1 other.client_file.1
    × ((configurations
          (codes "/r")
          (with_private (codes "x") (codes "y") small)
          (codes "anytls-native-reality-previous")
          4001
          4002
          4003).client_file
        ≡ other.client_file)
    × ((configurations
          (codes "/r")
          (with_private (codes "x") (codes "y") small)
          (codes "anytls-native-reality-previous")
          4001
          4002
          4003).client_command
        ≡ other.client_command)
unfolding contains
configurations-AreOther_example =
    configurations-AreOther (codes "/r") small (codes "anytls-native-reality-previous") 4001 4002
      4003 (codes "x") (codes "y") other_variant
