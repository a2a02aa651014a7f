-- ===== src/Rules/Validate.antt =====
-- NativeDNS.Core/src/rules.cpp: `validate`. A set of identifiers is the list of its members. The
-- checks of an enumeration against its last value hold of every value of these types.
pub mod Ends
pub mod Unseen
pub mod Cycles
pub mod Acyclic
use native_dns.Prelude.{
  ℕ, zero, suc, ◌+◌, Bool, true, false, not, ◌&&◌, ◌||◌, Option, none, some, List, [], ◌∷◌, ltb,
  ◌==◌, if◌then◌else◌, length, any, is_empty, drop, Text, codes, text_eq, schema, config_limit,
  config_invalid, server_id, endpoint, server_fallback, rule_id, default_rule, pattern,
  server_reference, Result, ok, fault, ◌>>=◌, ◌>>◌, throw_if,
}
use native_dns.Model.{Protocol, Action, process, bypass, block, Server, Rule, Config}
use native_dns.Rules.Names.{normalize_host, normalize_dns_name}
use native_dns.Rules.Options.{runtime_options}
use native_dns.Network.Endpoint.{protocol_is, parse_numeric_endpoint, validate_dnscrypt_server}

-- `if (b) (void)m;`
unfoldable pub when {ℓ} : {A : Type ℓ} → Bool → Result A → Result (Unit {0})
when true m = m >>= λ _. ok tt
when false m = ok tt

abbrev pub Ids : Type 0
Ids = List ℕ

-- `set::contains`
unfoldable pub has_id : ℕ → Ids → Bool
has_id id [] = false
has_id id (i ∷ ids) = if i == id then true else has_id id ids

unfoldable pub remove_id : ℕ → Ids → Ids
remove_id id [] = []
remove_id id (i ∷ ids) = let rest = remove_id id ids in if i == id then rest else i ∷ rest

unfoldable pub starts_with : Text → Text → Bool
starts_with [] text = true
starts_with (c ∷ prefix) [] = false
starts_with (c ∷ prefix) (d ∷ text) = c == d && starts_with prefix text

-- `authority.empty()` for what stands between the scheme and the next slash
unfoldable pub no_authority : Text → Bool
no_authority [] = true
no_authority (c ∷ text) = c == b'/'

unfoldable pub has_bad_byte : Text → Bool
has_bad_byte url =
    any (λ c. c == 13 || c == 10 || c == 9 || c == b' ') url || any (λ c. c == b'@') url

unfoldable pub check_url : Text → Result (Unit {0})
unfolding starts_with no_authority has_bad_byte
check_url url = do
  throw_if (not (starts_with (codes "https://") url) || has_bad_byte url) endpoint
  throw_if (no_authority (drop 8 url)) endpoint

-- The loop over `server.fallback_ids`.
unfoldable pub check_fallbacks : ℕ → List ℕ → Ids → Result (Unit {0})
unfolding has_id
check_fallbacks id [] seen = ok tt
check_fallbacks id (fallback ∷ rest) seen = do
  throw_if (fallback == 0 || fallback == id || has_id fallback seen) server_fallback
  check_fallbacks id rest (fallback ∷ seen)

unfoldable pub check_patterns : List Text → Result (Unit {0})
check_patterns [] = ok tt
check_patterns (p ∷ patterns) = do _ ← normalize_dns_name p true; check_patterns patterns

unfoldable pub is_process : Action → Bool
is_process process = true
is_process bypass = false
is_process block = false

-- `rule.patterns != std::vector<std::string>{"*"}`, negated
unfoldable pub matches_all : List Text → Bool
matches_all [] = false
matches_all (p ∷ []) = text_eq p (b'*' ∷ [])
matches_all (p ∷ q ∷ patterns) = false

unfoldable pub same_bool : Bool → Bool → Bool
same_bool true b = b
same_bool false b = not b

-- The body of the loop over the rules; `last` is `i == config.rules.size() - 1`.
unfoldable pub check_rule : Ids → Bool → Rule → Ids → Result (Unit {0})
check_rule servers last rule seen = do
  throw_if (rule.id == 0 || has_id rule.id seen || is_empty rule.name) rule_id
  throw_if (not (same_bool rule.is_default last)) default_rule
  throw_if (rule.is_default && (not rule.enabled || not (matches_all rule.patterns))) default_rule
  throw_if (is_empty rule.patterns || ltb 4096 (length rule.patterns)) pattern
  check_patterns rule.patterns
  throw_if
      (is_process rule.action && not (rule.server_id == 0) && not (has_id rule.server_id servers))
      server_reference
  throw_if (not (is_process rule.action) && not (rule.server_id == 0)) server_reference

unfoldable pub check_rules : Ids → List Rule → Ids → Result (Unit {0})
check_rules servers [] seen = ok tt
check_rules servers (rule ∷ rules) seen = do
  check_rule servers (is_empty rules) rule seen
  check_rules servers rules (rule.id ∷ seen)

-- `servers.find`, for servers whose identifiers differ
unfoldable pub fallbacks_of : ℕ → List Server → Option (List ℕ)
fallbacks_of id [] = none
fallbacks_of id (server ∷ servers) =
    let rest = fallbacks_of id servers in if server.id == id then some server.fallback_ids else rest

unfoldable pub is_known : List Server → ℕ → Bool
unfolding fallbacks_of
is_known servers id = elim (fallbacks_of id servers) [ none ↦ false | some _ ↦ true ]

unfoldable pub check_known : List Server → List ℕ → Result (Unit {0})
unfolding is_known
check_known servers [] = ok tt
check_known servers (fallback ∷ rest) = do
  throw_if (not (is_known servers fallback)) server_fallback
  check_known servers rest

unfoldable pub check_references : List Server → List Server → Result (Unit {0})
unfolding check_known
check_references all [] = ok tt
check_references all (server ∷ servers) = do
  check_known all server.fallback_ids
  check_references all servers

-- The sets `visiting` and `visited`.
pub record Visits : Type 0 where
  pub visiting : Ids
  pub visited : Ids

-- The loop over the fallbacks inside `visit`.
unfoldable pub visit_each : (ℕ → Visits → Result Visits) → List ℕ → Visits → Result Visits
visit_each visit [] v = ok v
visit_each visit (id ∷ ids) v = visit id v >>= visit_each visit ids

unfoldable pub visit_node :
    (ℕ → Visits → Result Visits) → ℕ → Option (List ℕ) → Visits → Result Visits
unfolding visit_each has_id remove_id
visit_node visit id none v = fault
visit_node visit id (some fallbacks) v = do
  throw_if (has_id id v.visiting) server_fallback
  w ← visit_each visit fallbacks (record { visiting = id ∷ v.visiting; visited = v.visited })
  ok (record { visiting = remove_id id w.visiting; visited = id ∷ w.visited })

-- The recursive lambda `visit`, on fuel for its depth.
unfoldable pub visit : ℕ → List Server → ℕ → Visits → Result Visits
unfolding visit_node fallbacks_of
visit zero servers id v = fault
visit (suc depth) servers id v =
    if has_id id v.visited
    then ok v
    else visit_node (visit depth servers) id (fallbacks_of id servers) v

unfoldable pub ids_of : List Server → List ℕ
ids_of [] = []
ids_of (server ∷ servers) = server.id ∷ ids_of servers

-- Every nested visit adds one server to `visiting`; one more finds the cycle.
unfoldable pub check_cycles : List Server → Result Visits
unfolding visit_each visit ids_of
check_cycles servers =
    visit_each (visit (length servers + 2) servers) (ids_of servers)
      (record { visiting = []; visited = [] })

module _ (pton4 pton6 : Text → Option (List ℕ)) where
  -- The body of the loop over the servers.
  unfoldable pub check_server : Server → Ids → Result (Unit {0})
  check_server server seen = do
    let is = protocol_is server.protocol
    throw_if (server.id == 0 || has_id server.id seen || is_empty server.name) server_id
    throw_if (server.timeout_ms == 0 || ltb 120000 server.timeout_ms) config_invalid
    when (not (is_empty server.ip)) (parse_numeric_endpoint pton4 pton6 server.ip)
    throw_if ((is Protocol.udp || is Protocol.tcp) && is_empty server.ip) endpoint
    when (is Protocol.dnscrypt || is Protocol.anonymized_dnscrypt)
        (validate_dnscrypt_server pton4 pton6 server)
    throw_if (server.allow_direct_certificate_fallback && not (is Protocol.anonymized_dnscrypt))
        config_invalid
    when (is Protocol.dot || is Protocol.doq) (normalize_host server.hostname false)
    when (is Protocol.doh || is Protocol.doh3) (check_url server.url)
    check_fallbacks server.id server.fallback_ids []

  unfoldable pub check_servers : List Server → Ids → Result Ids
  check_servers [] seen = ok seen
  check_servers (server ∷ servers) seen = do
    check_server server seen
    check_servers servers (server.id ∷ seen)

  unfoldable pub validate : Config → Result (Unit {0})
  validate config = do
    _ ← runtime_options config
    throw_if (not (config.schema_version == 1)) schema
    throw_if
        (ltb 4096 (length config.servers)
          || is_empty config.rules
          || ltb 4096 (length config.rules))
        config_limit
    throw_if (config.test_concurrency == 0 || ltb 64 config.test_concurrency) config_invalid
    _ ← normalize_host config.test_target false
    ids ← check_servers config.servers []
    check_references config.servers config.servers
    _ ← check_cycles config.servers
    check_rules ids config.rules []
