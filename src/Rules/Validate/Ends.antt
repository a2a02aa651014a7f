-- ===== src/Rules/Validate/Ends.antt =====
-- NativeDNS.Core/src/rules.cpp: `validate` accepts or throws; with the checks that it makes of
-- NativeDNS.Core/src/network.cpp and NativeDNS.Core/src/dnscrypt.cpp.
use native_dns.Prelude.{
  ℕ, Bool, true, false, not, ◌&&◌, ◌||◌, ◌≡◌, refl, Option, none, some, List, [], ◌∷◌, ◌==◌, ltb,
  if_cases, length, is_empty, drop, codes, Text, Code, Result, ok, err, fault, ◌>>=◌, ◌>>◌,
  throw_if, Safe, endpoint,
}
use native_dns.Model.{Server, Protocol, Rule, Config}
use native_dns.Rules.Names.{normalize_host, normalize_dns_name}
use native_dns.Rules.Names.Canonical.{normalize-IsCanonical}
use native_dns.Rules.Options.{decimal, runtime_options}
use native_dns.Rules.Options.Bounds.{IsBounded, runtime_options-IsBounded}
use native_dns.Network.Endpoint.{
  cut_at, address_family, scoped, parse_numeric_endpoint, relay_port, bracket_port, bracketed,
  plain_relay, relay_parts, relay_endpoint, key_digits, is_key_space, parse_ip, protocol_is,
  parse_dnscrypt_provider_key, validate_dnscrypt_server, is_hex, is_numeric_ip, NumericEndpoint,
}
use native_dns.Rules.Validate.{
  Ids, when, check_url, check_fallbacks, check_patterns, check_rule, check_rules, check_known,
  check_references, check_cycles, check_server, check_servers, validate, starts_with, has_bad_byte,
  no_authority, has_id, same_bool, matches_all, is_process, is_known,
}
use native_dns.Rules.Validate.Cycles.{check_cycles-Safe}

-- A value or an error, never a fault.
unfoldable pub Quiet {ℓ} : {A : Type ℓ} → Result A → Type 0
Quiet (ok a) = Unit
Quiet (err c) = Unit
Quiet fault = ⊥

module _ {ℓ κ} {A : Type ℓ} {B : Type κ} where
  pub Quiet-bind :
      (m : Result A) (k : A → Result B)
      → Quiet m
      → ((a : A) → m ≡ ok a → Quiet (k a))
      → Quiet (m >>= k)
  unfolding Quiet
  Quiet-bind (ok a) k h next = next a refl
  Quiet-bind (err c) k h next = tt
  Quiet-bind fault k h next = h

  Quiet-then : (m : Result A) (r : Result B) → Quiet m → Quiet r → Quiet (m >> r)
  Quiet-then m r h next = Quiet-bind m (λ _. r) h (λ _ _. next)

pub Quiet-Safe {ℓ} : {A : Type ℓ} (P : A → Type 0) (r : Result A) → Safe P r → Quiet r
unfolding Quiet
Quiet-Safe P (ok a) h = tt
Quiet-Safe P (err c) h = tt
Quiet-Safe P fault h = h

pub Quiet-ok {ℓ} : {A : Type ℓ} (a : A) → Quiet (ok a)
unfolding Quiet
Quiet-ok a = tt

pub Quiet-err {ℓ} : (A : Type ℓ) (c : Code) → Quiet {A = A} (err c)
unfolding Quiet
Quiet-err A c = tt

Quiet-throw_if : (b : Bool) (c : Code) → Quiet (throw_if b c)
unfolding Quiet
Quiet-throw_if true c = tt
Quiet-throw_if false c = tt

pub Quiet-check {ℓ} :
    {A : Type ℓ} (b : Bool) (c : Code) (r : Result A) → Quiet r → Quiet (throw_if b c >> r)
Quiet-check b c r h = Quiet-then (throw_if b c) r (Quiet-throw_if b c) h

normalize_host-Quiet : (text : Text) (pattern : Bool) → Quiet (normalize_host text pattern)
unfolding normalize_host
normalize_host-Quiet text pattern = Quiet-Safe _ _ (normalize-IsCanonical text pattern true)

normalize_dns_name-Quiet : (text : Text) (pattern : Bool) → Quiet (normalize_dns_name text pattern)
unfolding normalize_dns_name
normalize_dns_name-Quiet text pattern = Quiet-Safe _ _ (normalize-IsCanonical text pattern false)

when-Quiet {ℓ} : {A : Type ℓ} (b : Bool) (m : Result A) → Quiet m → Quiet (when b m)
unfolding when
when-Quiet true m h = Quiet-bind m _ h (λ _ _. Quiet-ok tt)
when-Quiet false m h = Quiet-ok tt

check_url-Quiet : (url : Text) → Quiet (check_url url)
unfolding check_url
check_url-Quiet url =
    Quiet-check (not (starts_with (codes "https://") url) || has_bad_byte url) _ _
      (Quiet-throw_if (no_authority (drop 8 url)) _)

check_fallbacks-Quiet : (id : ℕ) (ids : List ℕ) (seen : Ids) → Quiet (check_fallbacks id ids seen)
unfolding check_fallbacks
check_fallbacks-Quiet id [] seen = Quiet-ok tt
check_fallbacks-Quiet id (fallback ∷ rest) seen =
    Quiet-check (fallback == 0 || fallback == id || has_id fallback seen) _ _
      (check_fallbacks-Quiet id rest (fallback ∷ seen))

check_patterns-Quiet : (ps : List Text) → Quiet (check_patterns ps)
unfolding check_patterns
check_patterns-Quiet [] = Quiet-ok tt
check_patterns-Quiet (p ∷ ps) =
    Quiet-bind _ _ (normalize_dns_name-Quiet p true) (λ _ _. check_patterns-Quiet ps)

check_rule-Quiet :
    (servers : Ids) (last : Bool) (r : Rule) (seen : Ids) → Quiet (check_rule servers last r seen)
unfolding check_rule
check_rule-Quiet servers last r seen =
    Quiet-check (r.id == 0 || has_id r.id seen || is_empty r.name) _ _ (
      Quiet-check (not (same_bool r.is_default last)) _ _ (
        Quiet-check (r.is_default && (not r.enabled || not (matches_all r.patterns))) _ _ (
          Quiet-check (is_empty r.patterns || ltb 4096 (length r.patterns)) _ _ (
            Quiet-then _ _ (check_patterns-Quiet r.patterns) (
              Quiet-check
                (is_process r.action && not (r.server_id == 0) && not (has_id r.server_id servers))
                _ _ (Quiet-throw_if (not (is_process r.action) && not (r.server_id == 0)) _))))))

check_rules-Quiet :
    (servers : Ids) (rs : List Rule) (seen : Ids) → Quiet (check_rules servers rs seen)
unfolding check_rules
check_rules-Quiet servers [] seen = Quiet-ok tt
check_rules-Quiet servers (r ∷ rs) seen =
    Quiet-then _ _ (check_rule-Quiet servers (is_empty rs) r seen)
      (check_rules-Quiet servers rs (r.id ∷ seen))

check_known-Quiet : (servers : List Server) (ids : List ℕ) → Quiet (check_known servers ids)
unfolding check_known
check_known-Quiet servers [] = Quiet-ok tt
check_known-Quiet servers (id ∷ ids) =
    Quiet-check (not (is_known servers id)) _ _ (check_known-Quiet servers ids)

check_references-Quiet : (all servers : List Server) → Quiet (check_references all servers)
unfolding check_references
check_references-Quiet all [] = Quiet-ok tt
check_references-Quiet all (s ∷ servers) =
    Quiet-then _ _ (check_known-Quiet all s.fallback_ids) (check_references-Quiet all servers)

scoped-Quiet : (address : Text) (v6 : Bool) (scope : Option ℕ) → Quiet (scoped address v6 scope)
unfolding scoped
scoped-Quiet address v6 none = Quiet-err _ _
scoped-Quiet address v6 (some scope) =
    Quiet-check (ltb 4294967295 scope || not v6 || scope == 0) _ _ (Quiet-ok _)

relay_port-Quiet : (port : Option ℕ) → Quiet (relay_port port)
unfolding relay_port
relay_port-Quiet none = Quiet-err _ _
relay_port-Quiet (some port) = Quiet-check (port == 0 || ltb 65535 port) _ _ (Quiet-ok _)

bracket_port-Quiet : (text : Text) → Quiet (bracket_port text)
unfolding bracket_port
bracket_port-Quiet [] = Quiet-ok _
bracket_port-Quiet (c ∷ text) = Quiet-check (not (c == b':')) _ _ (relay_port-Quiet (decimal text))

bracketed-Quiet : (parts : Option (Text × Text)) → Quiet (bracketed parts)
unfolding bracketed
bracketed-Quiet none = Quiet-err _ _
bracketed-Quiet (some (address, behind)) =
    Quiet-bind _ _ (bracket_port-Quiet behind) (λ _ _. Quiet-ok _)

second_colon-Quiet :
    (value address behind : Text) (o : Option (Text × Text))
    → Quiet {A = Text × ℕ} (elim o [
      | some _ ↦ ok (value, 443)
      | none ↦ relay_port (decimal behind) >>= λ port. ok (address, port)
    ])
second_colon-Quiet value address behind (some _) = Quiet-ok _
second_colon-Quiet value address behind none =
    Quiet-bind _ _ (relay_port-Quiet (decimal behind)) (λ _ _. Quiet-ok _)

plain_relay-Quiet : (value : Text) (parts : Option (Text × Text)) → Quiet (plain_relay value parts)
unfolding plain_relay
plain_relay-Quiet value none = Quiet-ok _
plain_relay-Quiet value (some (address, behind)) =
    second_colon-Quiet value address behind (cut_at b':' behind)

relay_parts-Quiet : (value : Text) → Quiet (relay_parts value)
unfolding relay_parts
relay_parts-Quiet [] = Quiet-err _ _
relay_parts-Quiet (c ∷ value) =
    if_cases {A = Result (Text × ℕ)} Quiet (c == b'[') (λ _. bracketed-Quiet (cut_at b']' value))
      (λ _. plain_relay-Quiet (c ∷ value) (cut_at b':' (c ∷ value)))

key_digits-Quiet : (text : Text) → Quiet (key_digits text)
unfolding key_digits
key_digits-Quiet [] = Quiet-ok _
key_digits-Quiet (c ∷ text) =
    if_cases {A = Result Text} Quiet (is_key_space c) (λ _. key_digits-Quiet text)
      (λ _.
        Quiet-check (not (is_hex c)) _ _
          (Quiet-bind _ _ (key_digits-Quiet text) (λ _ _. Quiet-ok _)))

parse_dnscrypt_provider_key-Quiet : (text : Text) → Quiet (parse_dnscrypt_provider_key text)
unfolding parse_dnscrypt_provider_key
parse_dnscrypt_provider_key-Quiet text =
    Quiet-bind _ _ (key_digits-Quiet text)
      (λ hex _. Quiet-check (not (length hex == 64)) _ _ (Quiet-ok _))

module _ (pton4 pton6 : Text → Option (List ℕ)) where
  family_of-Quiet :
      (o : Option (List ℕ × Bool))
      → Quiet {A = Bool} (elim o [ some (_, v6) ↦ ok v6 | none ↦ err endpoint ])
  family_of-Quiet (some (_, v6)) = Quiet-ok _
  family_of-Quiet none = Quiet-err _ _

  address_family-Quiet : (text : Text) → Quiet (address_family pton4 pton6 text)
  unfolding address_family
  address_family-Quiet text = family_of-Quiet (parse_ip pton4 pton6 text)

  endpoint_of-Quiet :
      (text : Text) (o : Option (Text × Text))
      → Quiet {A = NumericEndpoint} (elim o [
        | none ↦ address_family pton4 pton6 text >>= λ v6.
            ok (record { address = text; scope6 = 0; ipv6 = v6 })
        | some (address, scope) ↦
            address_family pton4 pton6 address >>= λ v6. scoped address v6 (decimal scope)
      ])
  endpoint_of-Quiet text none = Quiet-bind _ _ (address_family-Quiet text) (λ _ _. Quiet-ok _)
  endpoint_of-Quiet text (some (address, scope)) =
      Quiet-bind _ _ (address_family-Quiet address)
        (λ v6 _. scoped-Quiet address v6 (decimal scope))

  parse_numeric_endpoint-Quiet : (text : Text) → Quiet (parse_numeric_endpoint pton4 pton6 text)
  unfolding parse_numeric_endpoint
  parse_numeric_endpoint-Quiet text = endpoint_of-Quiet text (cut_at b'%' text)

  relay_endpoint-Quiet : (server : Server) → Quiet (relay_endpoint pton4 pton6 server)
  unfolding relay_endpoint
  relay_endpoint-Quiet server =
      Quiet-bind _ _ (relay_parts-Quiet server.relay)
        (λ (ip, port) _. Quiet-check (not (is_numeric_ip pton4 pton6 ip)) _ _ (Quiet-ok _))

  validate_dnscrypt_server-Quiet :
      (server : Server) → Quiet (validate_dnscrypt_server pton4 pton6 server)
  unfolding validate_dnscrypt_server
  validate_dnscrypt_server-Quiet server =
      let anonymized = protocol_is server.protocol Protocol.anonymized_dnscrypt in
      Quiet-check (not (protocol_is server.protocol Protocol.dnscrypt) && not anonymized) _ _ (
        Quiet-check (is_empty server.ip) _ _ (
          Quiet-bind _ _ (normalize_host-Quiet server.provider_name false) λ _ _.
            Quiet-bind _ _ (parse_dnscrypt_provider_key-Quiet server.public_key) λ _ _.
              if_cases {A = Result (Unit {0})} Quiet anonymized
                (λ _. Quiet-bind _ _ (relay_endpoint-Quiet server) (λ _ _. Quiet-ok tt))
                (λ _. Quiet-ok tt)))

  check_server-Quiet : (server : Server) (seen : Ids) → Quiet (check_server pton4 pton6 server seen)
  unfolding check_server
  check_server-Quiet server seen =
      let is = protocol_is server.protocol in
      Quiet-check (server.id == 0 || has_id server.id seen || is_empty server.name) _ _ (
        Quiet-check (server.timeout_ms == 0 || ltb 120000 server.timeout_ms) _ _ (
          Quiet-then _ _ (when-Quiet _ _ (parse_numeric_endpoint-Quiet server.ip)) (
            Quiet-check ((is Protocol.udp || is Protocol.tcp) && is_empty server.ip) _ _ (
              Quiet-then _ _ (when-Quiet _ _ (validate_dnscrypt_server-Quiet server)) (
                Quiet-check
                  (server.allow_direct_certificate_fallback
                    && not (is Protocol.anonymized_dnscrypt))
                  _ _
                  (Quiet-then _ _ (when-Quiet _ _ (normalize_host-Quiet server.hostname false)) (
                    Quiet-then _ _ (when-Quiet _ _ (check_url-Quiet server.url))
                      (check_fallbacks-Quiet server.id server.fallback_ids []))))))))

  check_servers-Quiet :
      (servers : List Server) (seen : Ids) → Quiet (check_servers pton4 pton6 servers seen)
  unfolding check_servers
  check_servers-Quiet [] seen = Quiet-ok _
  check_servers-Quiet (s ∷ servers) seen =
      Quiet-then _ _ (check_server-Quiet s seen) (check_servers-Quiet servers (s.id ∷ seen))

  pub validate-Quiet : (config : Config) → Quiet (validate pton4 pton6 config)
  unfolding validate
  validate-Quiet config =
      Quiet-bind (runtime_options config) _
        (Quiet-Safe IsBounded (runtime_options config) (runtime_options-IsBounded config))
        λ _ _. Quiet-check (not (config.schema_version == 1)) _ _ (
          Quiet-check
            (ltb 4096 (length config.servers)
              || is_empty config.rules
              || ltb 4096 (length config.rules))
            _ _
            (Quiet-check (config.test_concurrency == 0 || ltb 64 config.test_concurrency) _ _ (
              Quiet-bind _ _ (normalize_host-Quiet config.test_target false) λ _ _.
                Quiet-bind _ _ (check_servers-Quiet config.servers []) λ ids _.
                  Quiet-bind _ _ (check_references-Quiet config.servers config.servers) λ u known.
                    Quiet-bind (check_cycles config.servers) _
                      (Quiet-Safe (λ w. w.visiting ≡ []) (check_cycles config.servers)
                        (check_cycles-Safe config.servers known))
                      (λ _ _. check_rules-Quiet ids config.rules []))))
