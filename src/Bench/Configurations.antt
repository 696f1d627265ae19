-- ===== src/Bench/Configurations.antt =====
-- `configurations` of veil-core/scripts/fixtures.py: the documents and the commands of a server and
-- a client, for the proxy and for the program it is compared with.
pub mod Pairs
use project_veil.Prelude.{
  ℕ, Bool, true, false, List, [], ◌∷◌, ◌++◌, Text, Dict, insert, codes, decimal, starts_with,
  ends_with, contains, if◌then◌else◌,
}
use project_veil.Bench.Json.{Json, text, num, boolean, list, dict}

-- `f["keys"]`
pub record Keys : Type 0 where
  pub secret : Text
  pub reality_private_key : Text
  pub reality_public_key : Text
  pub short_id : Text

pub record Fixture : Type 0 where
  pub keys : Keys
  pub cert : Text
  pub key : Text
  pub folder : Text

-- `f"127.0.0.1:{port}"`
unfoldable pub local_address : ℕ → Text
local_address port = codes "127.0.0.1:" ++ decimal port

-- The two documents, and the names of the two programs.
pub record Setup : Type 0 where
  pub server : Json
  pub client : Json
  pub server_binary : Text
  pub client_binary : Text
  pub config_flag : Text

unfoldable pub veil_server_tls : Fixture → Bool → ℕ → Dict Json
unfolding local_address
veil_server_tls f reality cover =
    let st : Dict Json =
      (codes "mode", text (if reality then codes "reality" else codes "tls"))
      ∷ (codes "server_name", text (codes "cover.test"))
      ∷ [] in
    if reality
    then insert (codes "cover_address") (text (local_address cover)) (
        insert (codes "short_id") (text f.keys.short_id)
          (insert (codes "reality_private_key") (text f.keys.reality_private_key) st))
    else insert (codes "private_key_file") (text f.key)
        (insert (codes "certificate") (text f.cert) st)

unfoldable pub veil_client_tls : Fixture → Bool → Dict Json
veil_client_tls f reality =
    let ct : Dict Json =
      (codes "mode", text (if reality then codes "reality" else codes "tls"))
      ∷ (codes "server_name", text (codes "cover.test"))
      ∷ [] in
    if reality
    then insert (codes "short_id") (text f.keys.short_id)
        (insert (codes "reality_public_key") (text f.keys.reality_public_key) ct)
    else insert (codes "ca_file") (text f.cert) ct

unfoldable pub veil_setup : Fixture → Bool → Bool → ℕ → ℕ → ℕ → Setup
unfolding veil_server_tls veil_client_tls local_address
veil_setup f reality opt sp cp cover = record {
  server = dict (
      (codes "role", text (codes "server"))
      ∷ (codes "listen", text (local_address sp))
      ∷ (codes "secret", text f.keys.secret)
      ∷ (codes "tls", dict (veil_server_tls f reality cover))
      ∷ (codes "max_connections", num 128)
      ∷ (codes "idle_seconds", num 60)
      ∷ []);
  client = dict (
      (codes "role", text (codes "client"))
      ∷ (codes "listen", text (local_address cp))
      ∷ (codes "server", text (local_address sp))
      ∷ (codes "secret", text f.keys.secret)
      ∷ (codes "tls", dict (veil_client_tls f reality))
      ∷ (codes "max_connections", num 128)
      ∷ (codes "idle_seconds", num 60)
      ∷ []);
  server_binary = if opt then codes "veil-openssl" else codes "veil-native";
  client_binary = if opt then codes "veil-batch" else codes "veil-native";
  config_flag = codes "-config";
}

-- `st` and `ct` of the other program before they are updated.
abbrev pub other_tls : Dict Json
other_tls =
    (codes "enabled", boolean true)
    ∷ (codes "server_name", text (codes "cover.test"))
    ∷ (codes "min_version", text (codes "1.3"))
    ∷ (codes "max_version", text (codes "1.3"))
    ∷ []

unfoldable pub other_server_tls : Fixture → Bool → ℕ → Dict Json
other_server_tls f reality cover =
    if reality
    then insert (codes "reality")
        (dict (
          (codes "enabled", boolean true)
          ∷ (
            codes "handshake",
            dict (
                (codes "server", text (codes "127.0.0.1")) ∷ (codes "server_port", num cover) ∷ []),
          )
          ∷ (codes "private_key", text f.keys.reality_private_key)
          ∷ (codes "short_id", list (text f.keys.short_id ∷ []))
          ∷ (codes "max_time_difference", text (codes "1m"))
          ∷ []))
        other_tls
    else insert (codes "key_path") (text f.key)
        (insert (codes "certificate_path") (text f.cert) other_tls)

unfoldable pub other_client_tls : Fixture → Bool → Dict Json
other_client_tls f reality =
    if reality
    then insert (codes "reality")
        (dict (
          (codes "enabled", boolean true)
          ∷ (codes "public_key", text f.keys.reality_public_key)
          ∷ (codes "short_id", text f.keys.short_id)
          ∷ []))
        (insert (codes "utls")
          (dict
            ((codes "enabled", boolean true) ∷ (codes "fingerprint", text (codes "chrome")) ∷ []))
          other_tls)
    else insert (codes "certificate_path") (text f.cert) other_tls

unfoldable pub other_setup : Fixture → Bool → Bool → ℕ → ℕ → ℕ → Setup
unfolding other_server_tls other_client_tls
other_setup f reality opt sp cp cover = record {
  server = dict (
      (codes "log", dict ((codes "level", text (codes "error")) ∷ []))
      ∷ (
        codes "inbounds",
        list (
            dict (
              (codes "type", text (codes "anytls"))
              ∷ (codes "listen", text (codes "127.0.0.1"))
              ∷ (codes "listen_port", num sp)
              ∷ (
                codes "users",
                list (
                    dict (
                      (codes "name", text (codes "test"))
                      ∷ (codes "password", text f.keys.secret)
                      ∷ [])
                    ∷ []),
              )
              ∷ (codes "tls", dict (other_server_tls f reality cover))
              ∷ [])
            ∷ []),
      )
      ∷ (codes "outbounds", list (dict ((codes "type", text (codes "direct")) ∷ []) ∷ []))
      ∷ []);
  client = dict (
      (codes "log", dict ((codes "level", text (codes "error")) ∷ []))
      ∷ (
        codes "inbounds",
        list (
            dict (
              (codes "type", text (codes "socks"))
              ∷ (codes "listen", text (codes "127.0.0.1"))
              ∷ (codes "listen_port", num cp)
              ∷ [])
            ∷ []),
      )
      ∷ (
        codes "outbounds",
        list (
            dict (
              (codes "type", text (codes "anytls"))
              ∷ (codes "server", text (codes "127.0.0.1"))
              ∷ (codes "server_port", num sp)
              ∷ (codes "password", text f.keys.secret)
              ∷ (codes "tls", dict (other_client_tls f reality))
              ∷ [])
            ∷ []),
      )
      ∷ []);
  server_binary = if opt then codes "singbox-openssl" else codes "singbox-native";
  client_binary = if opt then codes "singbox-batch" else codes "singbox-native";
  config_flag = codes "-c";
}

unfoldable pub setup : Fixture → Text → ℕ → ℕ → ℕ → Setup
unfolding veil_setup other_setup
setup f variant sp cp cover =
    let reality = contains variant (codes "reality") in
    let opt = contains variant (codes "opt") in
    if starts_with variant (codes "veil")
    then veil_setup f reality opt sp cp cover
    else other_setup f reality opt sp cp cover

-- The commands that are returned, and the two files that are written first.
pub record Configured : Type 0 where
  pub server_command : List Text
  pub client_command : List Text
  pub server_file : Text × Json
  pub client_file : Text × Json

-- `root` is the directory of veil-core.
unfoldable pub configurations : Text → Fixture → Text → ℕ → ℕ → ℕ → Configured
unfolding setup
configurations root f variant sp cp cover =
    let s = setup f variant sp cp cover in
    let sf = f.folder ++ codes "/server.json" in
    let cf = f.folder ++ codes "/client.json" in
    let prefix = if starts_with variant (codes "veil") then [] else codes "run" ∷ [] in
    let binaries =
      root
      ++ (if ends_with variant (codes "-previous")
          then codes "/.build/previous/"
          else codes "/.build/") in
    record {
      server_command = (binaries ++ s.server_binary) ∷ prefix ++ s.config_flag ∷ sf ∷ [];
      client_command = (binaries ++ s.client_binary) ∷ prefix ++ s.config_flag ∷ cf ∷ [];
      server_file = (sf, s.server);
      client_file = (cf, s.client);
    }
