-- ===== src/Network/Endpoint.antt =====
-- NativeDNS.Core/src/platform/linux/platform.cpp: `parse_ip`, where `pton4` and `pton6` stand for
-- `inet_pton` of the two families. NativeDNS.Core/src/network.cpp: `parse_numeric_endpoint`.
-- NativeDNS.Core/src/dnscrypt.cpp: `relay_endpoint`, `parse_dnscrypt_provider_key` and
-- `validate_dnscrypt_server`.
use native_dns.Prelude.{
  ℕ, ◌+◌, ◌-◌, ◌*◌, Bool, true, false, not, ◌&&◌, ◌||◌, Option, none, some, List, [], ◌∷◌, ◌++◌,
  ltb, leb, ◌==◌, if◌then◌else◌, between, length, is_empty, replicate, Text, codes, endpoint,
  protocol, other, Result, ok, err, ◌>>=◌, ◌>>◌, throw_if,
}
use native_dns.Model.{Protocol, Server, blank_server}
use native_dns.Rules.Names.{normalize_host}
use native_dns.Rules.Options.{decimal}

-- The text before the first `c` and the text behind it.
unfoldable pub cut_at : ℕ → Text → Option (Text × Text)
cut_at c [] = none
cut_at c (x ∷ text) =
    let rest = cut_at c text in
    if x == c
    then some ([], text)
    else elim rest [ none ↦ none | some (before, behind) ↦ some (x ∷ before, behind) ]

pub record NumericEndpoint : Type 0 where
  pub address : Text
  pub scope6 : ℕ
  pub ipv6 : Bool

unfoldable pub scoped : Text → Bool → Option ℕ → Result NumericEndpoint
scoped address ipv6 none = err endpoint
scoped address ipv6 (some scope) = do
  throw_if (ltb 4294967295 scope || not ipv6 || scope == 0) endpoint
  ok (record { address = address; scope6 = scope; ipv6 = ipv6 })

unfoldable pub protocol_is : Protocol → Protocol → Bool
protocol_is Protocol.udp Protocol.udp = true
protocol_is Protocol.tcp Protocol.tcp = true
protocol_is Protocol.doh Protocol.doh = true
protocol_is Protocol.dot Protocol.dot = true
protocol_is Protocol.doh3 Protocol.doh3 = true
protocol_is Protocol.doq Protocol.doq = true
protocol_is Protocol.dnscrypt Protocol.dnscrypt = true
protocol_is Protocol.anonymized_dnscrypt Protocol.anonymized_dnscrypt = true
protocol_is _ _ = false

-- The lambda `parse_port`.
unfoldable pub relay_port : Option ℕ → Result ℕ
relay_port none = err endpoint
relay_port (some port) = do throw_if (port == 0 || ltb 65535 port) endpoint; ok port

-- What follows the bracket that closes an IPv6 address.
unfoldable pub bracket_port : Text → Result ℕ
unfolding relay_port decimal
bracket_port [] = ok 443
bracket_port (c ∷ text) = do throw_if (not (c == b':')) endpoint; relay_port (decimal text)

unfoldable pub bracketed : Option (Text × Text) → Result (Text × ℕ)
bracketed none = err endpoint
bracketed (some (address, behind)) = do port ← bracket_port behind; ok (address, port)

-- An address with a port behind its only colon, or without one.
unfoldable pub plain_relay : Text → Option (Text × Text) → Result (Text × ℕ)
unfolding cut_at
plain_relay value none = ok (value, 443)
plain_relay value (some (address, behind)) = elim (cut_at b':' behind) [
  | some _ ↦ ok (value, 443)
  | none ↦ relay_port (decimal behind) >>= λ port. ok (address, port)
]

unfoldable pub relay_parts : Text → Result (Text × ℕ)
unfolding cut_at bracketed plain_relay
relay_parts [] = err endpoint
relay_parts (c ∷ value) =
    if c == b'['
    then bracketed (cut_at b']' value)
    else plain_relay (c ∷ value) (cut_at b':' (c ∷ value))

unfoldable pub is_hex : ℕ → Bool
is_hex c = between b'0' b'9' c || between b'a' b'f' c || between b'A' b'F' c

unfoldable pub is_key_space : ℕ → Bool
is_key_space c = c == b':' || c == b'-' || c == b' ' || c == 9

-- The hexadecimal digits of a provider key.
unfoldable pub key_digits : Text → Result Text
unfolding is_hex is_key_space
key_digits [] = ok []
key_digits (c ∷ text) =
    let rest = key_digits text in
    if is_key_space c
    then rest
    else throw_if (not (is_hex c)) (other (codes "DNSCRYPT_KEY")) >> (rest >>= λ hex. ok (c ∷ hex))

-- The lambda `digit`; `c | 32` is the lower case of a letter.
unfoldable pub hex_digit : ℕ → ℕ
hex_digit c = if leb c b'9' then c - b'0' else (if ltb c b'a' then c + 32 else c) - b'a' + 10

unfoldable pub hex_bytes : Text → List ℕ
unfolding hex_digit
hex_bytes (high ∷ low ∷ hex) = (hex_digit high * 16 + hex_digit low) ∷ hex_bytes hex
hex_bytes _ = []

unfoldable pub parse_dnscrypt_provider_key : Text → Result (List ℕ)
unfolding key_digits hex_bytes
parse_dnscrypt_provider_key text = do
  hex ← key_digits text
  throw_if (not (length hex == 64)) (other (codes "DNSCRYPT_KEY"))
  ok (hex_bytes hex)

module _ (pton4 pton6 : Text → Option (List ℕ)) where
  unfoldable pub parse_ip : Text → Option (List ℕ × Bool)
  parse_ip text = elim (pton4 text) [
    | some v4 ↦ some (replicate 12 0 ++ v4, false)
    | none ↦ elim (pton6 text) [ some v6 ↦ some (v6, true) | none ↦ none ]
  ]

  unfoldable pub is_numeric_ip : Text → Bool
  unfolding parse_ip
  is_numeric_ip text = elim (parse_ip text) [ some _ ↦ true | none ↦ false ]

  unfoldable pub address_family : Text → Result Bool
  unfolding parse_ip
  address_family text = elim (parse_ip text) [ some (_, v6) ↦ ok v6 | none ↦ err endpoint ]

  unfoldable pub parse_numeric_endpoint : Text → Result NumericEndpoint
  unfolding cut_at address_family scoped decimal
  parse_numeric_endpoint text = elim (cut_at b'%' text) [
    | none ↦ address_family text >>= λ v6. ok (record { address = text; scope6 = 0; ipv6 = v6 })
    | some (address, scope) ↦ address_family address >>= λ v6. scoped address v6 (decimal scope)
  ]

  unfoldable pub relay_endpoint : Server → Result Server
  unfolding relay_parts is_numeric_ip
  relay_endpoint server = do
    (ip, port) ← relay_parts server.relay
    throw_if (not (is_numeric_ip ip)) endpoint
    ok (record blank_server {
      enabled = true;
      protocol = Protocol.udp;
      timeout_ms = server.timeout_ms;
      route = server.route;
      ip = ip;
      port = port;
    })

  unfoldable pub validate_dnscrypt_server : Server → Result (Unit {0})
  unfolding protocol_is parse_dnscrypt_provider_key relay_endpoint
  validate_dnscrypt_server server = do
    let anonymized = protocol_is server.protocol Protocol.anonymized_dnscrypt
    throw_if (not (protocol_is server.protocol Protocol.dnscrypt) && not anonymized) protocol
    throw_if (is_empty server.ip) endpoint
    _ ← normalize_host server.provider_name false
    _ ← parse_dnscrypt_provider_key server.public_key
    if anonymized then relay_endpoint server >>= (λ _. ok tt) else ok tt
