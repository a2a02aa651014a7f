-- ===== src/Router/Route/Decisions.antt =====
-- NativeDNS.Core/src/router.cpp: `Router::route` from a request's bytes to its result.
use native_dns.Prelude.{
  ℕ, Bool, true, false, ◌||◌, ◌≡◌, refl, inl, inr, Option, none, some, List, [], ◌∷◌, ◌==◌,
  if_cases, has_bit, is_empty, Bool-cases, Text, Code, Result, ok, err, fault, ◌>>=◌, Safe,
  Safe-bind, length, ◌≤◌,
}
use native_dns.Model.{NetworkRoute, Server, Rule, Config, nxdomain}
use native_dns.Dns.Wire.{Packet}
use native_dns.Dns.Wire.Bounds.{IsPacket}
use native_dns.Dns.Response.{make_error_response}
use native_dns.Dns.Response.Fit.{made_response_bound}
use native_dns.Dns.Query.{Question, parse_question}
use native_dns.Dns.Query.Bounds.{QuestionRead, parse_question-Safe}
use native_dns.Network.Interfaces.{NetworkSnapshot}
use native_dns.Rules.Validate.{validate}
use native_dns.Rules.Evaluate.{RuleDecision, is_bypass, evaluate_rule}
use native_dns.Rules.Evaluate.Safety.{evaluate_rule-Safe}
use native_dns.Router.Group.{find_fallback}
use native_dns.Router.Route.{
  RouteResult, empty_result, is_block, select_server, route_server, through_interface, selected,
  answer_block, take_block, act, follow_decision, handle, route_question, route, Progress,
}
use native_dns.Router.Route.Choice.{select_server-Choice}
use native_dns.Router.Route.Contract.{
  IsOpen, IsExchange, Ends, undecided, handle-err-Ends, ask_upstream-Ends, answer_block-Ends,
  forward-Ends,
}

through_interface-Safe :
    (r : NetworkRoute) (server : Server) (resolvers : List Text)
    → Safe (λ _. Unit) (through_interface r server resolvers)
unfolding through_interface
through_interface-Safe r server [] = tt
through_interface-Safe r server (ip ∷ rest) = tt

route_server-Safe :
    (rule : Rule) (d : RuleDecision) (server : Server)
    → Safe (λ _. Unit) (route_server rule d server)
unfolding route_server
route_server-Safe rule d server =
    if_cases (Safe (λ _. Unit)) (is_empty d.route.interface_id) (λ _. tt)
      (λ _.
        if_cases (Safe (λ _. Unit)) (rule.server_id == 0)
          (λ _. through_interface-Safe d.route server d.interface_dns) (λ _. tt))

chosen-Safe :
    (rule : Rule) (d : RuleDecision) (r : Result Server)
    → Safe (λ _. Unit) r
    → Safe (λ _. Unit) (r >>= route_server rule d)
chosen-Safe rule d (ok server) h = route_server-Safe rule d server
chosen-Safe rule d (err code) h = tt
chosen-Safe rule d fault h = h

selected-Safe : (o : Option Server) → Safe (λ _. Unit) (selected o)
unfolding selected
selected-Safe none = tt
selected-Safe (some server) = tt

select_server-Safe :
    (config : Config) (rule : Rule) (original : Server)
    → Safe (λ _. Unit) (select_server config rule original)
unfolding select_server
select_server-Safe config rule original =
    if_cases (Safe (λ _. Unit)) (rule.server_id == 0) (λ _. tt)
      (λ _. selected-Safe (find_fallback rule.server_id config.servers))

module _ (format_ip : Packet → Bool → Text) (generation : ℕ)
    (exchange_cached : Packet → Server → Bool → Result (Packet × ℕ)) where
  Ends-Safe :
      (config : Config) (request : Packet) (original : Server) (question : Question)
      (d : RuleDecision) (r : Result RouteResult)
      → Ends format_ip generation exchange_cached config request original question d r
      → Safe (λ _. Unit) r
  unfolding Ends
  Ends-Safe config request original question d (ok r) h = tt
  Ends-Safe config request original question d (err code) h = tt
  Ends-Safe config request original question d fault h = h

  -- Without a decision a query fails.
  undecided-Safe :
      (request : Packet) (code : Code)
      → IsPacket request
      → Safe
          (λ _. Unit)
          (handle format_ip generation exchange_cached request (empty_result, err code))
  unfolding handle
  undecided-Safe request code bytes =
      Safe-bind (λ r. length r ≤ 311) (λ _. Unit) (make_error_response request 2) _
        (made_response_bound request 2 nxdomain bytes).0 (λ _ _. tt)

  act-Ends :
      (config : Config) (request : Packet) (original : Server) (question : Question)
      (result : RouteResult) (d : RuleDecision) (error : Option Code)
      → d.error ≡ error
      → IsPacket request
      → IsExchange format_ip generation exchange_cached config request original question d
      → IsOpen format_ip generation exchange_cached config request original question d result
      → Ends format_ip generation exchange_cached config request original question d (
          handle format_ip generation exchange_cached request (
            act format_ip generation exchange_cached config request original question result d
              error))
  unfolding act
  act-Ends config request original question result d (some code) given bytes exchanges opened =
      handle-err-Ends format_ip generation exchange_cached config request original question d result
        code bytes (undecided given) opened
  act-Ends config request original question result d none given bytes exchanges opened =
      let P = λ (p : Progress format_ip generation exchange_cached).
        Ends format_ip generation exchange_cached config request original question d
          (handle format_ip generation exchange_cached request p) in
      if_cases P (d.captive_bypass || is_bypass d.rule.action)
        (λ h.
          forward-Ends format_ip generation exchange_cached config request original question d
            result opened given h)
        (λ stays.
          if_cases P (is_block d.rule.action)
            (λ blocked.
              answer_block-Ends format_ip generation exchange_cached config request original
                question d result bytes opened (given, stays) blocked)
            (λ free.
              ask_upstream-Ends format_ip generation exchange_cached config request original
                question d result _ bytes exchanges opened ((given, stays), free)
                (select_server-Choice config original d)
                (chosen-Safe d.rule d (select_server config d.rule original)
                  (select_server-Safe config d.rule original))))

  -- For a request of bytes that holds a query with a decision, where the exchange gives bytes or
  -- throws, routing ends in one of five ways, under the identifier and the action of the deciding
  -- rule. Without an error of the decision: a bypass forwards the request as it is; a silent
  -- block drops it; another block answers with the made up block response; and any other query is
  -- answered with the message that the exchange with the chosen server gave, which answers the
  -- question, and the code DNS_RCODE stands in the result just where that answer is not NOERROR.
  -- Or it fails with a made up response and the error's code: that of the decision, of making up
  -- the block response, of choosing the server, of the exchange with it, or of reading its
  -- message. The chosen server is the one that the rule names, or the caller's where it names
  -- none, on the route of the decision and, where that has an adapter and the rule names no
  -- server, at the adapter's first resolver. It throws only what making up that failure response
  -- throws.
  pub route-Ends :
      (config : Config) (network : NetworkSnapshot) (request : Packet) (original : Server)
      (question : Question) (d : RuleDecision)
      → IsPacket request
      → parse_question request ≡ ok question
      → has_bit question.flags 32768 ≡ false
      → evaluate_rule config question.name network ≡ ok d
      → IsExchange format_ip generation exchange_cached config request original question d
      → Ends format_ip generation exchange_cached config request original question d
          (route format_ip generation exchange_cached config network request original)
  unfolding route route_question follow_decision
  route-Ends config network request original question d bytes e query decided exchanges =
      rw (e, query, decided)
        (act-Ends config request original question _ d d.error refl bytes exchanges
          (refl, refl, (refl, refl)))

-- Whether a query is served here: with an error, forwarded or blocked.
unfoldable pub is_local : RuleDecision → Option Code → Bool
is_local d (some code) = true
is_local d none = (d.captive_bypass || is_bypass d.rule.action) || is_block d.rule.action

or-false : (a b : Bool) → (a || b) ≡ true → a ≡ false → b ≡ true
or-false true b h e = cc
or-false false b h e = h

act-local :
    (format_ip : Packet → Bool → Text) (generation : ℕ)
    (first second : Packet → Server → Bool → Result (Packet × ℕ)) (config : Config)
    (request : Packet) (original : Server) (question : Question) (result : RouteResult)
    (d : RuleDecision) (error : Option Code)
    → is_local d error ≡ true
    → act format_ip generation first config request original question result d error
      ≡ act format_ip generation second config request original question result d error
unfolding act is_local answer_block take_block
act-local format_ip generation first second config request original question result d (some code)
      h =
    refl
act-local format_ip generation first second config request original question result d none h =
    elim (Bool-cases (d.captive_bypass || is_bypass d.rule.action)) [
      | inl forwarded ↦ rw forwarded refl
      | inr stays ↦ rw (stays, or-false _ _ h stays) refl
    ]

-- The result for a query whose decision is an error, a bypass or a block is the same whatever the
-- upstream exchange would give: it is not asked.
pub route-local :
    (format_ip : Packet → Bool → Text) (generation : ℕ)
    (first second : Packet → Server → Bool → Result (Packet × ℕ)) (config : Config)
    (network : NetworkSnapshot) (request : Packet) (original : Server) (question : Question)
    (d : RuleDecision)
    → parse_question request ≡ ok question
    → evaluate_rule config question.name network ≡ ok d
    → is_local d d.error ≡ true
    → route format_ip generation first config network request original
      ≡ route format_ip generation second config network request original
unfolding route route_question follow_decision handle
route-local format_ip generation first second config network request original question d e decided
      local =
    rw
      (
        e,
        decided,
        act-local format_ip generation first second config request original question _ d d.error
            local,
      )
      refl

followed-Safe :
    (format_ip : Packet → Bool → Text) (generation : ℕ)
    (exchange_cached : Packet → Server → Bool → Result (Packet × ℕ)) (config : Config)
    (request : Packet) (original : Server) (question : Question) (decision : Result RuleDecision)
    → IsPacket request
    → ((server : Server) (configured : Bool)
        → Safe (λ (packet, used). IsPacket packet) (exchange_cached request server configured))
    → Safe (λ _. Unit) decision
    → Safe
        (λ _. Unit)
        (handle format_ip generation exchange_cached request (
          follow_decision format_ip generation exchange_cached config request original question
            decision))
unfolding follow_decision
followed-Safe format_ip generation exchange_cached config request original question (ok d) bytes
      exchanges safe =
    Ends-Safe format_ip generation exchange_cached config request original question d _ (
      act-Ends format_ip generation exchange_cached config request original question _ d d.error
        refl bytes exchanges (refl, refl, (refl, refl)))
followed-Safe format_ip generation exchange_cached config request original question (err code) bytes
      exchanges safe =
    undecided-Safe format_ip generation exchange_cached request code bytes
followed-Safe format_ip generation exchange_cached config request original question fault bytes
      exchanges safe =
    absurd safe

route_question-Safe :
    (pton4 pton6 : Text → Option (List ℕ)) (format_ip : Packet → Bool → Text) (generation : ℕ)
    (exchange_cached : Packet → Server → Bool → Result (Packet × ℕ)) (config : Config)
    (network : NetworkSnapshot) (request : Packet) (original : Server) (parsed : Result Question)
    → validate pton4 pton6 config ≡ ok tt
    → IsPacket request
    → ((server : Server) (configured : Bool)
        → Safe (λ (packet, used). IsPacket packet) (exchange_cached request server configured))
    → Safe (QuestionRead request) parsed
    → Safe
        (λ _. Unit)
        (route_question format_ip generation exchange_cached config network request original parsed)
unfolding route_question
route_question-Safe pton4 pton6 format_ip generation exchange_cached config network request original
      (ok question) valid bytes exchanges safe =
    if_cases (Safe (λ _. Unit)) (has_bit question.flags 32768) (λ _. tt)
      (λ _.
        followed-Safe format_ip generation exchange_cached config request original question
          (evaluate_rule config question.name network) bytes exchanges
          (evaluate_rule-Safe pton4 pton6 config question.name network valid))
route_question-Safe pton4 pton6 format_ip generation exchange_cached config network request original
      (err code) valid bytes exchanges safe =
    tt
route_question-Safe pton4 pton6 format_ip generation exchange_cached config network request original
      fault valid bytes exchanges safe =
    absurd safe

-- In a valid configuration no request of bytes, well-formed or not, makes routing leave a container,
-- where the exchange gives bytes or throws.
pub route-Safe :
    (pton4 pton6 : Text → Option (List ℕ)) (format_ip : Packet → Bool → Text) (generation : ℕ)
    (exchange_cached : Packet → Server → Bool → Result (Packet × ℕ)) (config : Config)
    (network : NetworkSnapshot) (request : Packet) (original : Server)
    → validate pton4 pton6 config ≡ ok tt
    → IsPacket request
    → ((server : Server) (configured : Bool)
        → Safe (λ (packet, used). IsPacket packet) (exchange_cached request server configured))
    → Safe (λ _. Unit) (route format_ip generation exchange_cached config network request original)
unfolding route
route-Safe pton4 pton6 format_ip generation exchange_cached config network request original valid
      bytes exchanges =
    route_question-Safe pton4 pton6 format_ip generation exchange_cached config network request
      original (parse_question request) valid bytes exchanges (parse_question-Safe request bytes)
