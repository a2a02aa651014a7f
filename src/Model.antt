-- ===== src/Model.antt =====
-- NativeDNS.Core/include/nativedns/model.hpp: the configuration. A vector is a list, a map of
-- strings an association list.
use native_dns.Prelude.{ℕ, Bool, true, false, List, [], ◌∷◌, Text, codes}

pub data Protocol : Type 0 where
  udp tcp doh dot doh3 doq dnscrypt anonymized_dnscrypt : Protocol

pub data Action : Type 0 where
  process bypass block : Action

pub data BlockMode : Type 0 where
  zero_address nxdomain refused silent_drop : BlockMode

pub data Level : Type 0 where
  errors_only normal verbose debug : Level

pub record NetworkRoute : Type 0 where
  pub interface_id : Text
  pub interface_name : Text
  pub index4 : ℕ
  pub index6 : ℕ
  pub scope6 : ℕ
  pub generation : ℕ

pub record Server : Type 0 where
  pub id : ℕ
  pub name : Text
  pub enabled : Bool
  pub protocol : Protocol
  pub ip : Text
  pub hostname : Text
  pub url : Text
  pub port : ℕ
  pub dnssec_supported : Bool
  pub timeout_ms : ℕ
  pub allow_direct_certificate_fallback : Bool
  pub fallback_ids : List ℕ
  pub bootstrap : List Text
  pub hashes : List Text
  pub use_system_bootstrap : Bool
  pub route : NetworkRoute
  pub public_key : Text
  pub provider_name : Text
  pub relay : Text
  pub metadata : List (Text × Text)

pub record Rule : Type 0 where
  pub id : ℕ
  pub name : Text
  pub enabled : Bool
  pub is_default : Bool
  pub patterns : List Text
  pub action : Action
  pub server_id : ℕ
  pub interface_id : Text
  pub dnssec_validate : Bool
  pub dnssec_reject_unsigned : Bool
  pub block_mode : BlockMode
  pub metadata : List (Text × Text)

pub record LoggingSettings : Type 0 where
  pub screen : Level
  pub file : Level
  pub file_enabled : Bool
  pub directory : Text

pub record Config : Type 0 where
  pub schema_version : ℕ
  pub servers : List Server
  pub rules : List Rule
  pub logging : LoggingSettings
  pub test_target : Text
  pub test_concurrency : ℕ
  pub settings : List (Text × Text)

abbrev pub no_route : NetworkRoute
no_route = record {
  interface_id = [];
  interface_name = [];
  index4 = 0;
  index6 = 0;
  scope6 = 0;
  generation = 0;
}

abbrev pub default_rule_value : Rule
default_rule_value = record {
  id = 1;
  name = codes "Default";
  enabled = true;
  is_default = true;
  patterns = (b'*' ∷ []) ∷ [];
  action = process;
  server_id = 0;
  interface_id = [];
  dnssec_validate = false;
  dnssec_reject_unsigned = false;
  block_mode = zero_address;
  metadata = [];
}

abbrev pub default_config : Config
default_config = record {
  schema_version = 1;
  servers = [];
  rules = default_rule_value ∷ [];
  logging = record {
    screen = normal;
    file = normal;
    file_enabled = true;
    directory = codes "logs";
  };
  test_target = codes "iana.org";
  test_concurrency = 15;
  settings = [];
}

-- The default values of a `Server`.
abbrev pub blank_server : Server
blank_server = record {
  id = 0;
  name = [];
  enabled = true;
  protocol = udp;
  ip = [];
  hostname = [];
  url = [];
  port = 0;
  dnssec_supported = false;
  timeout_ms = 3000;
  allow_direct_certificate_fallback = false;
  fallback_ids = [];
  bootstrap = [];
  hashes = [];
  use_system_bootstrap = false;
  route = no_route;
  public_key = [];
  provider_name = [];
  relay = [];
  metadata = [];
}
