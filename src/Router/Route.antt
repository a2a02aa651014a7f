-- ===== src/Router/Route.antt =====
-- NativeDNS.Core/src/router.cpp: `Router::route` over one snapshot of the configuration, with
-- `with_network_context` of NativeDNS.Core/src/network.cpp. `exchange_cached` is a parameter here: its
-- outcome hangs on the requests that run at the same time. Logging and the texts of messages are left
-- out; an exception that is not the program's own has the code `internal`.
pub mod Choice
pub mod Contract
pub mod Decisions
use native_dns.Prelude.{
  ℕ, Bool, true, false, not, ◌&&◌, ◌||◌, Option, none, some, List, [], ◌∷◌, ◌==◌, if◌then◌else◌,
  has_bit, is_empty, Text, codes, Code, dns_malformed, server_reference, interface_dns, other,
  Result, ok, err, fault, ◌>>=◌,
}
use native_dns.Model.{Action, process, bypass, block, NetworkRoute, Server, Rule, Config}
use native_dns.Dns.Wire.{Packet}
use native_dns.Dns.Query.{Question, parse_question}
use native_dns.Dns.Answer.{DnsAnswer, parse_response}
use native_dns.Dns.Response.{is_silent_drop, make_error_response, make_block_response}
use native_dns.Network.Interfaces.{NetworkSnapshot}
use native_dns.Rules.Evaluate.{RuleDecision, is_bypass, evaluate_rule}
use native_dns.Router.Group.{find_fallback}

pub data Disposition : Type 0 where
  reply forward_original silent_drop : Disposition

pub record RouteResult : Type 0 where
  pub disposition : Disposition
  pub packet : Packet
  pub rule_id : ℕ
  pub server_id : ℕ
  pub action : Action
  pub error_code : Option Code

abbrev pub empty_result : RouteResult
empty_result = record {
  disposition = reply;
  packet = [];
  rule_id = 0;
  server_id = 0;
  action = process;
  error_code = none;
}

abbrev pub dns_rcode : Code
dns_rcode = other (codes "DNS_RCODE")

unfoldable pub is_block : Action → Bool
is_block block = true
is_block process = false
is_block bypass = false

-- The generation of the network is the one that the shared monitor holds.
unfoldable pub with_network_context : ℕ → Server → Server
with_network_context generation server =
    if server.route.generation == 0
    then record server { route = record (server.route) { generation = generation } }
    else server

unfoldable pub selected : Option Server → Result Server
selected none = err server_reference
selected (some server) = ok server

unfoldable pub select_server : Config → Rule → Server → Result Server
unfolding selected find_fallback
select_server config rule original =
    if rule.server_id == 0
    then ok original
    else selected (find_fallback rule.server_id config.servers)

-- Without a server of its own a rule asks the adapter's resolver.
unfoldable pub through_interface : NetworkRoute → Server → List Text → Result Server
through_interface route server [] = err interface_dns
through_interface route server (ip ∷ rest) =
    ok (record server { route = route; ip = ip; port = 53 })

unfoldable pub route_server : Rule → RuleDecision → Server → Result Server
unfolding through_interface
route_server rule decision server =
    if is_empty decision.route.interface_id
    then ok server
    else (if rule.server_id == 0
        then through_interface decision.route server decision.interface_dns
        else ok (record server { route = decision.route }))

module _ (format_ip : Packet → Bool → Text) (generation : ℕ)
    (exchange_cached : Packet → Server → Bool → Result (Packet × ℕ)) where
  -- The result so far, and whether something was thrown then.
  abbrev pub Progress : Type 0
  Progress = RouteResult × Result (Unit {0})

  unfoldable pub judge : RouteResult → Result DnsAnswer → Progress
  judge result (ok parsed) =
      (if parsed.rcode == 0 then result else record result { error_code = some dns_rcode }, ok tt)
  judge result (err code) = (result, err code)
  judge result fault = (result, fault)

  unfoldable pub take_exchange : Question → RouteResult → Result (Packet × ℕ) → Progress
  unfolding judge
  take_exchange question result (ok (packet, used)) =
      judge (record result { packet = packet; server_id = used })
        (parse_response format_ip packet question)
  take_exchange question result (err code) = (result, err code)
  take_exchange question result fault = (result, fault)

  unfoldable pub ask_upstream : Packet → Question → RouteResult → Bool → Result Server → Progress
  unfolding take_exchange with_network_context
  ask_upstream request question result configured (ok server) =
      take_exchange question result
        (exchange_cached request (with_network_context generation server) configured)
  ask_upstream request question result configured (err code) = (result, err code)
  ask_upstream request question result configured fault = (result, fault)

  unfoldable pub take_block : RouteResult → Result Packet → Progress
  take_block result (ok packet) = (record result { packet = packet }, ok tt)
  take_block result (err code) = (result, err code)
  take_block result fault = (result, fault)

  unfoldable pub answer_block : Packet → RouteResult → Rule → Progress
  unfolding take_block
  answer_block request result rule =
      if is_silent_drop rule.block_mode
      then (record result { disposition = silent_drop }, ok tt)
      else take_block result (make_block_response request rule.block_mode)

  -- From the decision's error on.
  unfoldable pub act :
      Config → Packet → Server → Question → RouteResult → RuleDecision → Option Code → Progress
  unfolding answer_block ask_upstream select_server route_server is_block
  act config request original question result decision (some code) = (result, err code)
  act config request original question result decision none =
      let rule = decision.rule in
      let server = select_server config rule original >>= route_server rule decision in
      if decision.captive_bypass || is_bypass rule.action
      then (record result { disposition = forward_original; packet = request }, ok tt)
      else (if is_block rule.action
          then answer_block request result rule
          else ask_upstream request question result (not (rule.server_id == 0)) server)

  unfoldable pub follow_decision :
      Config → Packet → Server → Question → Result RuleDecision → Progress
  unfolding act
  follow_decision config request original question (ok decision) =
      act config request original question
        (record empty_result {
          rule_id = decision.rule.id;
          server_id = decision.rule.server_id;
          action = decision.rule.action;
        })
        decision decision.error
  follow_decision config request original question (err code) = (empty_result, err code)
  follow_decision config request original question fault = (empty_result, fault)

  -- The handlers of the `try`, for a query with a valid question.
  unfoldable pub handle : Packet → Progress → Result RouteResult
  handle request (result, ok _) = ok result
  handle request (result, err code) = do
    packet ← make_error_response request 2
    ok (record result { packet = packet; error_code = some code })
  handle request (result, fault) = fault

  -- The same for one without.
  unfoldable pub drop_request : Code → RouteResult
  drop_request code = record empty_result { disposition = silent_drop; error_code = some code }

  unfoldable pub route_question :
      Config → NetworkSnapshot → Packet → Server → Result Question → Result RouteResult
  unfolding handle follow_decision drop_request
  route_question config network request original (ok question) =
      let progress =
        follow_decision config request original question
          (evaluate_rule config question.name network) in
      if has_bit question.flags 32768
      then ok (drop_request dns_malformed)
      else handle request progress
  route_question config network request original (err code) = ok (drop_request code)
  route_question config network request original fault = fault

  unfoldable pub route : Config → NetworkSnapshot → Packet → Server → Result RouteResult
  unfolding route_question
  route config network request original =
      route_question config network request original (parse_question request)
