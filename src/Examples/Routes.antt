-- ===== src/Examples/Routes.antt =====
-- The theorems on groups, exchanges and routing at two servers that fall back on each other, and at a query that
-- the configuration blocks.
use native_dns.Prelude.{
  ℕ, zero, suc, Bool, true, not, ◌≡◌, refl, none, List, [], ◌∷◌, ◌++◌, ◌≤◌, drop, arith, codes,
  false, ltb, erase_if, Text, lookup, text_eq, timeout, Result, ok, err, Safe,
}
use native_dns.Model.{
  block, nxdomain, Server, Rule, Config, blank_server, default_rule_value, default_config,
}
use native_dns.Dns.Wire.{Packet}
use native_dns.Dns.Query.{parse_question}
use native_dns.Dns.Query.Laid.{question_of, parse_question-packet_of}
use native_dns.Rules.Names.{normalize_dns_name}
use native_dns.Rules.Options.{RuntimeOptions, runtime_options, boolean, number}
use native_dns.Rules.Validate.{is_process}
use native_dns.Rules.Match.{host_matches}
use native_dns.Rules.Select.{any_pattern}
use native_dns.Rules.Evaluate.{
  fresh, evaluate_rule, evaluate_rules, or_else, decide, selector_of, finish, captive, is_bypass,
}
use native_dns.Network.Interfaces.{network_route_key}
use native_dns.Router.Cache.{no_tables, cache_key, entry_bytes, max_cache_bytes}
use native_dns.Router.Cache.Histories.{initial, started, Reached-IsSound}
use native_dns.Router.Exchange.{exchange_cached}
use native_dns.Router.Exchange.Settles.{Leaves, exchange_cached-Leaves}
use native_dns.Router.Group.{gather, exchange_group}
use native_dns.Router.Group.Candidates.{IsGroup, gather-IsGroup}
use native_dns.Router.Group.Outcome.{Ends, exchange_group-Ends}
use native_dns.Router.Route.{is_block, route}
use native_dns.Router.Route.Contract as Contract
use native_dns.Router.Route.Decisions.{is_local, route-Ends, route-local, route-Safe}
use native_dns.Examples.Packets.{
  asked, request, request-IsPacket, response, response-IsPacket, asked-IsLaid,
}
use native_dns.Examples.Rules.{loopback4, no_address, sample, sample_valid}
use native_dns.Examples.Adapters.{connected}

abbrev one : Server
one = record blank_server { id = 1; fallback_ids = 2 ∷ 7 ∷ [] }

abbrev two : Server
two = record blank_server { id = 2; fallback_ids = 1 ∷ [] }

abbrev pair : List Server
pair = one ∷ two ∷ []

gather-IsGroup_example :
    (all : List Server) × (gather pair one ≡ ok (erase_if (λ server. not server.enabled) all))
    × IsGroup pair one all
gather-IsGroup_example = gather-IsGroup pair one

-- The first attempt times out, the second is answered.
abbrev replies : ℕ → Packet → Server → Result Packet
replies zero p server = err timeout
replies (suc n) p server = ok response

exchange_group-Ends_example :
    (all : List Server) × IsGroup pair one all
    × Ends ℕ ltb
        (λ old new. new)
        (λ new. new)
        (λ f servers. servers)
        (λ n. n)
        replies
        (λ n table. table)
        all
        request
        one
        (exchange_group ℕ ltb
          (λ old new. new)
          (λ new. new)
          (λ f servers. servers)
          (λ n. n)
          replies
          (λ n table. table)
          pair
          request
          one
          []).1
exchange_group-Ends_example =
    exchange_group-Ends ℕ ltb (λ old new. new) (λ new. new) (λ f servers. servers) (λ n. n) replies
      (λ n table. table) pair request one [] (λ f xs s m. m) refl

abbrev blocker : Rule
blocker = record default_rule_value { action = block; block_mode = nxdomain }

abbrev blocking : Config
blocking = record default_config { rules = blocker ∷ [] }

blocking_decides : evaluate_rule blocking (question_of asked).name connected ≡ ok (fresh blocker)
unfolding evaluate_rule normalize_dns_name runtime_options boolean lookup number evaluate_rules
    any_pattern host_matches or_else decide selector_of text_eq finish captive is_bypass is_process
blocking_decides = refl

abbrev format : Packet → Bool → Text
format p six = []

abbrev relayed : Packet → Server → Bool → Result (List ℕ × ℕ)
relayed p server configured = ok (response, 1)

abbrev refused_all : Packet → Server → Bool → Result (List ℕ × ℕ)
refused_all p server configured = err timeout

asked_question : parse_question request ≡ ok (question_of asked)
asked_question = parse_question-packet_of asked asked-IsLaid

route-Ends_example :
    Contract.Ends format 0 relayed blocking request one
      (question_of asked)
      (fresh blocker)
      (route format 0 relayed blocking connected request one)
route-Ends_example =
    route-Ends format 0 relayed blocking connected request one (question_of asked) (fresh blocker)
      request-IsPacket asked_question refl blocking_decides (λ server configured. response-IsPacket)

blocked : is_local (fresh blocker) none ≡ true
unfolding is_local is_bypass is_block
blocked = refl

route-local_example :
    route format 0 relayed blocking connected request one
    ≡ route format 0 refused_all blocking connected request one
route-local_example =
    route-local format 0 relayed refused_all blocking connected request one (question_of asked)
      (fresh blocker) asked_question blocking_decides blocked

route-Safe_example : Safe (λ _. Unit) (route format 0 relayed sample connected request one)
route-Safe_example =
    route-Safe loopback4 no_address format 0 relayed sample connected request one sample_valid
      request-IsPacket (λ server configured. response-IsPacket)

abbrev request_key : Packet
request_key = codes "configured:1||0|0|0|0|" ++ 0 ∷ 0 ∷ drop 2 request

request_keyed : cache_key true one request ≡ ok request_key
unfolding cache_key network_route_key
request_keyed = refl

response_small : entry_bytes request_key response ≤ max_cache_bytes
unfolding entry_bytes
response_small = omega arith

abbrev options : RuntimeOptions
options = record {
  clear_dns_cache = false;
  block_tcp53 = false;
  intercept_others = false;
  captive_portal_detection = false;
  ignore_interface_down = false;
  ttl_min = 0;
  ttl_max = 86400;
}

exchange_cached-Leaves_example :
    Leaves request_key []
      (exchange_cached format options 5 9 request one true
        (λ id. none)
        (λ t. t)
        (ok (response, one))
        no_tables).0
exchange_cached-Leaves_example =
    exchange_cached-Leaves format options request_key (λ t. t) (λ l. l) (λ l u h. h) (λ l id h. h) 5
      9 request one true (λ id. none) (ok (response, one)) [] no_tables request_keyed
      request-IsPacket (response-IsPacket, response_small) (Reached-IsSound initial started)
