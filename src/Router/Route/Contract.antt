-- ===== src/Router/Route/Contract.antt =====
-- NativeDNS.Core/src/router.cpp: what `Router::route` promises for a query with a decision.
use native_dns.Prelude.{
  ℕ, Bool, true, false, not, ◌||◌, ◌≡◌, refl, sym, ◌∙◌, none, some, ◌==◌, if◌then◌else◌, if_cases,
  Text, Code, Result, ok, err, fault, ◌>>=◌, Safe,
}
use native_dns.Model.{Server, Config}
use native_dns.Dns.Wire.{Packet}
use native_dns.Dns.Wire.Bounds.{IsPacket}
use native_dns.Dns.Query.{Question}
use native_dns.Dns.Answer.{DnsAnswer, parse_response}
use native_dns.Dns.Answer.Bounds.{IsSound, parse_response-Safe}
use native_dns.Dns.Response.{is_silent_drop, make_error_response, make_block_response}
use native_dns.Dns.Response.Fit.{made_response_bound}
use native_dns.Rules.Evaluate.{RuleDecision, is_bypass}
use native_dns.Router.Route.Choice.{Choice, IsTold, with_network_context-IsTold}
use native_dns.Router.Route.{
  reply, forward_original, silent_drop, RouteResult, dns_rcode, is_block, with_network_context,
  judge, take_exchange, ask_upstream, take_block, answer_block, handle, Progress,
}

module _ (format_ip : Packet → Bool → Text) (generation : ℕ)
    (exchange_cached : Packet → Server → Bool → Result (Packet × ℕ)) (config : Config)
    (request : Packet) (original : Server) (question : Question) (d : RuleDecision) where
  -- The choice of a server for the decision.
  abbrev pub Chosen : Result Server → Type 0
  Chosen = Choice config original d

  -- What the exchange with a server gives, under the generation of the network; it is told whether
  -- the rule names the server.
  abbrev pub Exchanged : Server → Result (Packet × ℕ) → Type 0
  Exchanged server r =
      (told : Server) × IsTold generation server told
      × (exchange_cached request told (not (d.rule.server_id == 0)) ≡ r)

  -- The decision neither reports an error nor forwards the query.
  abbrev pub IsServed : Type 0
  IsServed = (d.error ≡ none) × ((d.captive_bypass || is_bypass d.rule.action) ≡ false)

  -- And it is no block: an upstream server is asked.
  abbrev pub IsAsked : Type 0
  IsAsked = IsServed × (is_block d.rule.action ≡ false)

  -- Why a query fails with a code.
  pub data Fails (code : Code) : Type 0 where
    undecided : d.error ≡ some code → Fails code
    unblocked :
        IsServed
        → is_block d.rule.action ≡ true
        → is_silent_drop d.rule.block_mode ≡ false
        → make_block_response request d.rule.block_mode ≡ err code
        → Fails code
    unserved : IsAsked → Chosen (err code) → Fails code
    unanswered :
        (server : Server) → IsAsked → Chosen (ok server) → Exchanged server (err code) → Fails code
    unreadable :
        (server : Server) (packet : Packet) (used : ℕ)
        → IsAsked
        → Chosen (ok server)
        → Exchanged server (ok (packet, used))
        → parse_response format_ip packet question ≡ err code
        → Fails code

  -- The five ways to serve a query.
  pub data Serves (r : RouteResult) : Type 0 where
    forwards :
        d.error ≡ none
        → (d.captive_bypass || is_bypass d.rule.action) ≡ true
        → r.disposition ≡ forward_original
        → r.packet ≡ request
        → r.error_code ≡ none
        → Serves r
    drops :
        IsServed
        → is_block d.rule.action ≡ true
        → is_silent_drop d.rule.block_mode ≡ true
        → r.disposition ≡ silent_drop
        → r.error_code ≡ none
        → Serves r
    blocks :
        IsServed
        → is_block d.rule.action ≡ true
        → is_silent_drop d.rule.block_mode ≡ false
        → r.disposition ≡ reply
        → make_block_response request d.rule.block_mode ≡ ok r.packet
        → r.error_code ≡ none
        → Serves r
    relays :
        (server : Server) (parsed : DnsAnswer)
        → IsAsked
        → Chosen (ok server)
        → Exchanged server (ok (r.packet, r.server_id))
        → parse_response format_ip r.packet question ≡ ok parsed
        → r.disposition ≡ reply
        → r.error_code ≡ (if parsed.rcode == 0 then none else some dns_rcode)
        → Serves r
    fails :
        (code : Code)
        → Fails code
        → r.disposition ≡ reply
        → r.error_code ≡ some code
        → make_error_response request 2 ≡ ok r.packet
        → Serves r

  -- A result says which rule decided, and what that rule does.
  abbrev pub IsTagged : RouteResult → Type 0
  IsTagged r = (r.rule_id ≡ d.rule.id) × (r.action ≡ d.rule.action)

  -- A result that serves, or the error of making up the response for a failure; never a fault.
  unfoldable pub Ends : Result RouteResult → Type 0
  Ends (ok r) = Serves r × IsTagged r
  Ends (err code) = (reason : Code) × Fails reason × (make_error_response request 2 ≡ err code)
  Ends fault = ⊥

  -- A result of which only the packet is not settled.
  abbrev pub IsOpen : RouteResult → Type 0
  IsOpen result = (result.disposition ≡ reply) × (result.error_code ≡ none) × IsTagged result

  made-Ends :
      (made : Result Packet) (result : RouteResult) (code : Code)
      → make_error_response request 2 ≡ made
      → Safe (λ _. Unit) made
      → Fails code
      → IsOpen result
      → Ends (made >>= λ packet. ok (record result { packet = packet; error_code = some code }))
  unfolding Ends
  made-Ends (ok packet) result code e safe why (plain, clean, tagged) =
      (fails code why plain refl e, tagged)
  made-Ends (err c) result code e safe why opened = (code, why, e)
  made-Ends fault result code e safe why opened = safe

  Safe-Unit {ℓ} : {A : Type ℓ} (P : A → Type 0) (r : Result A) → Safe P r → Safe (λ _. Unit) r
  Safe-Unit P (ok a) h = tt
  Safe-Unit P (err c) h = tt
  Safe-Unit P fault h = h

  made_error-Safe : IsPacket request → Safe (λ _. Unit) (make_error_response request 2)
  made_error-Safe bytes =
      Safe-Unit _ (make_error_response request 2)
        (made_response_bound request 2 d.rule.block_mode bytes).0

  pub handle-err-Ends :
      (result : RouteResult) (code : Code)
      → IsPacket request
      → Fails code
      → IsOpen result
      → Ends (handle format_ip generation exchange_cached request (result, err code))
  unfolding handle
  handle-err-Ends result code bytes why opened =
      made-Ends (make_error_response request 2) result code refl (made_error-Safe bytes) why opened

  error-zero :
      (parsed : DnsAnswer)
      → parsed.rcode == 0 ≡ true
      → (if parsed.rcode == 0 then none else some dns_rcode) ≡ none
  error-zero parsed h = rw h refl

  error-other :
      (parsed : DnsAnswer)
      → parsed.rcode == 0 ≡ false
      → (if parsed.rcode == 0 then none else some dns_rcode) ≡ some dns_rcode
  error-other parsed h = rw h refl

  judge-Ends :
      (server : Server) (result : RouteResult) (answer : Result DnsAnswer)
      → IsPacket request
      → IsOpen result
      → IsAsked
      → Chosen (ok server)
      → Exchanged server (ok (result.packet, result.server_id))
      → parse_response format_ip result.packet question ≡ answer
      → Safe (IsSound question) answer
      → Ends (
          handle format_ip generation exchange_cached request
            (judge format_ip generation exchange_cached result answer))
  unfolding judge handle Ends
  judge-Ends server result (ok parsed) bytes (plain, clean, tagged) asked chosen exchanged e safe =
      if_cases {A = RouteResult} (λ r. Serves r × IsTagged r) (parsed.rcode == 0)
        (λ h. (
          relays server parsed asked chosen exchanged e plain (clean ∙ sym (error-zero parsed h)),
          tagged,
        ))
        (λ h. (
          relays server parsed asked chosen exchanged e plain (sym (error-other parsed h)),
          tagged,
        ))
  judge-Ends server result (err code) bytes opened asked chosen exchanged e safe =
      handle-err-Ends result code bytes
        (unreadable server result.packet result.server_id asked chosen exchanged e) opened
  judge-Ends server result fault bytes opened asked chosen exchanged e safe = safe

  -- What the exchange gives is bytes, and never a fault.
  abbrev pub IsExchange : Type 0
  IsExchange =
      (server : Server) (configured : Bool)
      → Safe (λ (packet, used). IsPacket packet) (exchange_cached request server configured)

  take_exchange-Ends :
      (server : Server) (result : RouteResult) (exchanged : Result (Packet × ℕ))
      → IsPacket request
      → IsOpen result
      → IsAsked
      → Chosen (ok server)
      → Exchanged server exchanged
      → Safe (λ (packet, used). IsPacket packet) exchanged
      → Ends (
          handle format_ip generation exchange_cached request
            (take_exchange format_ip generation exchange_cached question result exchanged))
  unfolding take_exchange Ends handle
  take_exchange-Ends server result (ok (packet, used)) bytes opened asked chosen e safe =
      judge-Ends server (record result { packet = packet; server_id = used })
        (parse_response format_ip packet question) bytes opened asked chosen e refl
        (parse_response-Safe format_ip packet question safe)
  take_exchange-Ends server result (err code) bytes opened asked chosen e safe =
      handle-err-Ends result code bytes (unanswered server asked chosen e) opened
  take_exchange-Ends server result fault bytes opened asked chosen e safe = safe

  pub ask_upstream-Ends :
      (result : RouteResult) (chosen : Result Server)
      → IsPacket request
      → IsExchange
      → IsOpen result
      → IsAsked
      → Chosen chosen
      → Safe (λ _. Unit) chosen
      → Ends (
          handle format_ip generation exchange_cached request (
            ask_upstream format_ip generation exchange_cached request question result
              (not (d.rule.server_id == 0))
              chosen))
  unfolding ask_upstream Ends handle
  ask_upstream-Ends result (ok server) bytes exchanges opened asked e safe =
      let told = with_network_context generation server in
      let configured = not (d.rule.server_id == 0) in
      take_exchange-Ends server result (exchange_cached request told configured) bytes opened asked
        e (told, with_network_context-IsTold generation server, refl) (exchanges told configured)
  ask_upstream-Ends result (err code) bytes exchanges opened asked e safe =
      handle-err-Ends result code bytes (unserved asked e) opened
  ask_upstream-Ends result fault bytes exchanges opened asked e safe = safe

  take_block-Ends :
      (result : RouteResult) (made : Result Packet)
      → IsPacket request
      → IsOpen result
      → IsServed
      → is_block d.rule.action ≡ true
      → is_silent_drop d.rule.block_mode ≡ false
      → make_block_response request d.rule.block_mode ≡ made
      → Safe (λ _. Unit) made
      → Ends (
          handle format_ip generation exchange_cached request
            (take_block format_ip generation exchange_cached result made))
  unfolding take_block Ends handle
  take_block-Ends result (ok packet) bytes (plain, clean, tagged) served blocked loud e safe =
      (blocks served blocked loud plain e clean, tagged)
  take_block-Ends result (err code) bytes opened served blocked loud e safe =
      handle-err-Ends result code bytes (unblocked served blocked loud e) opened
  take_block-Ends result fault bytes opened served blocked loud e safe = safe

  pub answer_block-Ends :
      (result : RouteResult)
      → IsPacket request
      → IsOpen result
      → IsServed
      → is_block d.rule.action ≡ true
      → Ends (
          handle format_ip generation exchange_cached request
            (answer_block format_ip generation exchange_cached request result d.rule))
  unfolding answer_block Ends handle
  answer_block-Ends result bytes opened served blocked =
      if_cases {A = Progress format_ip generation exchange_cached}
        (λ p. Ends (handle format_ip generation exchange_cached request p))
        (is_silent_drop d.rule.block_mode)
        (λ silent. (drops served blocked silent refl opened.1, opened.2))
        (λ loud.
          take_block-Ends result (make_block_response request d.rule.block_mode) bytes opened served
            blocked loud refl
            (Safe-Unit _ (make_block_response request d.rule.block_mode)
              (made_response_bound request 2 d.rule.block_mode bytes).1))

  pub forward-Ends :
      (result : RouteResult)
      → IsOpen result
      → d.error ≡ none
      → (d.captive_bypass || is_bypass d.rule.action) ≡ true
      → Ends (
          handle format_ip generation exchange_cached request
            (record result { disposition = forward_original; packet = request }, ok tt))
  unfolding Ends handle
  forward-Ends result (plain, clean, tagged) none_there h =
      (forwards none_there h refl refl clean, tagged)
