-- ===== src/Bench/Configurations/Pairs.antt =====
-- The two documents of a setup fit together.
use project_veil.Prelude.{
  ℕ, ◌≡◌, refl, Bool, true, false, not, List, [], ◌∷◌, Option, none, some, Text, codes, insert,
  starts_with, contains, if◌then◌else◌,
}
use project_veil.Bench.Json.{Json, text, Key, at_key, at_index, get}
use project_veil.Bench.Configurations.{
  Fixture, veil_setup, other_setup, setup, configurations, veil_client_tls, other_client_tls,
}

abbrev pub tls : Text → List Key
tls name = at_key (codes "tls") ∷ at_key name ∷ []

-- The fixture with another private key of the server and another key file.
unfoldable pub with_private : Text → Text → Fixture → Fixture
with_private k file f = record f { keys = record f.keys { reality_private_key = k }; key = file }

-- A document's entry that is there in one of the two modes only.
abbrev pub given : Bool → Text → Option Json
given b value = if b then some (text value) else none

-- The client of the proxy dials the address that its server listens on, with the server's secret,
-- mode and name, and checks the server by what belongs to the server's key: with Reality by the
-- fixture's public key, where the server has its private key, and else by its certificate.
pub record AreVeil (f : Fixture) (reality : Bool) (server client : Json) : Type 0 where
  pub address :
      get (at_key (codes "server") ∷ []) client ≡ get (at_key (codes "listen") ∷ []) server
  pub secret : get (at_key (codes "secret") ∷ []) client ≡ get (at_key (codes "secret") ∷ []) server
  pub mode : get (tls (codes "mode")) client ≡ get (tls (codes "mode")) server
  pub name : get (tls (codes "server_name")) client ≡ get (tls (codes "server_name")) server
  pub short_id : get (tls (codes "short_id")) client ≡ get (tls (codes "short_id")) server
  pub trust : get (tls (codes "ca_file")) client ≡ get (tls (codes "certificate")) server
  pub has_secret : get (at_key (codes "secret") ∷ []) server ≡ some (text f.keys.secret)
  pub has_short_id : get (tls (codes "short_id")) server ≡ given reality f.keys.short_id
  pub has_private_key :
      get (tls (codes "reality_private_key")) server ≡ given reality f.keys.reality_private_key
  pub has_public_key :
      get (tls (codes "reality_public_key")) client ≡ given reality f.keys.reality_public_key
  pub has_certificate : get (tls (codes "certificate")) server ≡ given (not reality) f.cert
  pub has_key_file : get (tls (codes "private_key_file")) server ≡ given (not reality) f.key
  pub no_private_key : get (tls (codes "reality_private_key")) client ≡ none
  pub no_key_file : get (tls (codes "private_key_file")) client ≡ none

AreVeil-veil_setup :
    (f : Fixture) (reality opt : Bool) (sp cp cover : ℕ)
    → AreVeil f reality
        (veil_setup f reality opt sp cp cover).server
        (veil_setup f reality opt sp cp cover).client
unfolding veil_setup get insert
AreVeil-veil_setup f true opt sp cp cover = record {
  address = refl;
  secret = refl;
  mode = refl;
  name = refl;
  short_id = refl;
  trust = refl;
  has_secret = refl;
  has_short_id = refl;
  has_private_key = refl;
  has_public_key = refl;
  has_certificate = refl;
  has_key_file = refl;
  no_private_key = refl;
  no_key_file = refl;
}
AreVeil-veil_setup f false opt sp cp cover = record {
  address = refl;
  secret = refl;
  mode = refl;
  name = refl;
  short_id = refl;
  trust = refl;
  has_secret = refl;
  has_short_id = refl;
  has_private_key = refl;
  has_public_key = refl;
  has_certificate = refl;
  has_key_file = refl;
  no_private_key = refl;
  no_key_file = refl;
}

-- The inbound of a server and the outbound of a client, for the other program.
abbrev pub inbound : Text → List Key
inbound name = at_key (codes "inbounds") ∷ at_index 0 ∷ at_key name ∷ []

abbrev pub outbound : Text → List Key
outbound name = at_key (codes "outbounds") ∷ at_index 0 ∷ at_key name ∷ []

abbrev pub inbound_tls : List Key → List Key
inbound_tls path = at_key (codes "inbounds") ∷ at_index 0 ∷ at_key (codes "tls") ∷ path

abbrev pub outbound_tls : List Key → List Key
outbound_tls path = at_key (codes "outbounds") ∷ at_index 0 ∷ at_key (codes "tls") ∷ path

abbrev pub password : List Key
password =
    at_key (codes "inbounds")
    ∷ at_index 0
    ∷ at_key (codes "users")
    ∷ at_index 0
    ∷ at_key (codes "password")
    ∷ []

abbrev pub in_reality : Text → List Key
in_reality name = at_key (codes "reality") ∷ at_key name ∷ []

-- The same for the other program, which wraps the server's short ID into a list.
pub record AreOther (f : Fixture) (reality : Bool) (server client : Json) : Type 0 where
  pub protocol : get (outbound (codes "type")) client ≡ get (inbound (codes "type")) server
  pub host : get (outbound (codes "server")) client ≡ get (inbound (codes "listen")) server
  pub port :
      get (outbound (codes "server_port")) client ≡ get (inbound (codes "listen_port")) server
  pub secret : get (outbound (codes "password")) client ≡ get password server
  pub name :
      get (outbound_tls (at_key (codes "server_name") ∷ [])) client
      ≡ get (inbound_tls (at_key (codes "server_name") ∷ [])) server
  pub short_id :
      get (outbound_tls (in_reality (codes "short_id"))) client
      ≡ get
          (inbound_tls (at_key (codes "reality") ∷ at_key (codes "short_id") ∷ at_index 0 ∷ []))
          server
  pub trust :
      get (outbound_tls (at_key (codes "certificate_path") ∷ [])) client
      ≡ get (inbound_tls (at_key (codes "certificate_path") ∷ [])) server
  pub has_secret : get password server ≡ some (text f.keys.secret)
  pub has_short_id :
      get (outbound_tls (in_reality (codes "short_id"))) client ≡ given reality f.keys.short_id
  pub has_private_key :
      get (inbound_tls (in_reality (codes "private_key"))) server
      ≡ given reality f.keys.reality_private_key
  pub has_public_key :
      get (outbound_tls (in_reality (codes "public_key"))) client
      ≡ given reality f.keys.reality_public_key
  pub has_certificate :
      get (inbound_tls (at_key (codes "certificate_path") ∷ [])) server ≡ given (not reality) f.cert
  pub has_key_file :
      get (inbound_tls (at_key (codes "key_path") ∷ [])) server ≡ given (not reality) f.key
  pub no_private_key : get (outbound_tls (in_reality (codes "private_key"))) client ≡ none
  pub no_key_file : get (outbound_tls (at_key (codes "key_path") ∷ [])) client ≡ none

AreOther-other_setup :
    (f : Fixture) (reality opt : Bool) (sp cp cover : ℕ)
    → AreOther f reality
        (other_setup f reality opt sp cp cover).server
        (other_setup f reality opt sp cp cover).client
unfolding other_setup get insert
AreOther-other_setup f true opt sp cp cover = record {
  protocol = refl;
  host = refl;
  port = refl;
  secret = refl;
  name = refl;
  short_id = refl;
  trust = refl;
  has_secret = refl;
  has_short_id = refl;
  has_private_key = refl;
  has_public_key = refl;
  has_certificate = refl;
  has_key_file = refl;
  no_private_key = refl;
  no_key_file = refl;
}
AreOther-other_setup f false opt sp cp cover = record {
  protocol = refl;
  host = refl;
  port = refl;
  secret = refl;
  name = refl;
  short_id = refl;
  trust = refl;
  has_secret = refl;
  has_short_id = refl;
  has_private_key = refl;
  has_public_key = refl;
  has_certificate = refl;
  has_key_file = refl;
  no_private_key = refl;
  no_key_file = refl;
}

-- For a variant of the proxy, with Reality or without: the client's document dials the address that
-- the server's document listens on, with the same secret, mode, server name and short ID. With
-- Reality the server has the fixture's private key and the client the fixture's public key, without
-- it the client trusts the certificate that the server shows. The client's document and command are
-- the same for any other private key and key file.
pub configurations-AreVeil :
    (root : Text) (f : Fixture) (variant : Text) (sp cp cover : ℕ) (k file : Text)
    → starts_with variant (codes "veil") ≡ true
    → AreVeil f
        (contains variant (codes "reality"))
        (configurations root f variant sp cp cover).server_file.1
        (configurations root f variant sp cp cover).client_file.1
      × ((configurations root (with_private k file f) variant sp cp cover).client_file
          ≡ (configurations root f variant sp cp cover).client_file)
      × ((configurations root (with_private k file f) variant sp cp cover).client_command
          ≡ (configurations root f variant sp cp cover).client_command)
unfolding configurations setup with_private veil_setup veil_client_tls
configurations-AreVeil root f variant sp cp cover k file h =
    rw (h, configurations)
      (
        AreVeil-veil_setup f (contains variant (codes "reality")) (contains variant (codes "opt"))
            sp cp cover,
        refl,
        refl,
      )

-- For a variant of the other program: the client's outbound dials the host and port of the server's
-- inbound, with its protocol, password, server name and short ID. With Reality the server has the
-- fixture's private key and the client the fixture's public key, without it the client trusts the
-- certificate that the server shows. The client's document and command are the same for any other
-- private key and key file.
pub configurations-AreOther :
    (root : Text) (f : Fixture) (variant : Text) (sp cp cover : ℕ) (k file : Text)
    → starts_with variant (codes "veil") ≡ false
    → AreOther f
        (contains variant (codes "reality"))
        (configurations root f variant sp cp cover).server_file.1
        (configurations root f variant sp cp cover).client_file.1
      × ((configurations root (with_private k file f) variant sp cp cover).client_file
          ≡ (configurations root f variant sp cp cover).client_file)
      × ((configurations root (with_private k file f) variant sp cp cover).client_command
          ≡ (configurations root f variant sp cp cover).client_command)
unfolding configurations setup with_private other_setup other_client_tls
configurations-AreOther root f variant sp cp cover k file h =
    rw (h, configurations)
      (
        AreOther-other_setup f (contains variant (codes "reality")) (contains variant (codes "opt"))
            sp cp cover,
        refl,
        refl,
      )
