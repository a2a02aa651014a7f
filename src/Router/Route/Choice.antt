-- ===== src/Router/Route/Choice.antt =====
-- NativeDNS.Core/src/router.cpp: which server `Router::route` asks, and what it tells the exchange.
use mathlib.Core.List.{Memᴰ}
use native_dns.Prelude.{
  ℕ, true, false, ◌≡◌, ◌≢◌, refl, ◌⊎◌, inl, inr, Option, none, some, List, [], ◌∷◌, ◌==◌, ==_iff,
  if_cases, is_empty, Bool-cases, All, Text, server_reference, interface_dns, Result, ok, err,
  fault, ◌>>=◌, arith,
}
use native_dns.Model.{Server, Config}
use native_dns.Rules.Evaluate.{RuleDecision}
use native_dns.Router.Group.{find_fallback}
use native_dns.Router.Group.Invariant.{find_fallback-Mem}
use native_dns.Router.Route.{
  with_network_context, selected, select_server, through_interface, route_server,
}

beq-false : (a b : ℕ) → a == b ≡ false → a ≢ b
beq-false a b e same = ground (arith, e, same)

-- The server as the exchange gets it: without a generation it has that of the network.
pub data IsTold (generation : ℕ) (server told : Server) : Type 0 where
  filled :
      server.route.generation ≡ 0
      → told ≡ record server { route = record (server.route) { generation = generation } }
      → IsTold generation server told
  kept : server.route.generation ≢ 0 → told ≡ server → IsTold generation server told

pub with_network_context-IsTold :
    (generation : ℕ) (server : Server)
    → IsTold generation server (with_network_context generation server)
unfolding with_network_context
with_network_context-IsTold generation server =
    if_cases {A = Server} (IsTold generation server) (server.route.generation == 0)
      (λ h. filled ((==_iff server.route.generation 0).0 h) refl)
      (λ h. kept (beq-false server.route.generation 0 h) refl)

module _ (config : Config) (original : Server) (d : RuleDecision) where
  -- The rule's server: the caller's where the rule names none, or the one that it names.
  pub data IsBase (base : Server) : Type 0 where
    given : d.rule.server_id ≡ 0 → base ≡ original → IsBase base
    named :
        d.rule.server_id ≢ 0 → Memᴰ base config.servers → base.id ≡ d.rule.server_id → IsBase base

  -- The server on the route of the decision; without a server of its own a rule asks the first
  -- resolver of the adapter.
  pub data IsThrough (base server : Server) : Type 0 where
    direct : is_empty d.route.interface_id ≡ true → server ≡ base → IsThrough base server
    resolver :
        (ip : Text) (rest : List Text)
        → is_empty d.route.interface_id ≡ false
        → d.rule.server_id ≡ 0
        → d.interface_dns ≡ ip ∷ rest
        → server ≡ record base { route = d.route; ip = ip; port = 53 }
        → IsThrough base server
    adapter :
        is_empty d.route.interface_id ≡ false
        → d.rule.server_id ≢ 0
        → server ≡ record base { route = d.route }
        → IsThrough base server

  -- The choice of a server, or why there is none.
  unfoldable pub Choice : Result Server → Type 0
  Choice (ok server) = (base : Server) × IsBase base × IsThrough base server
  Choice (err code) =
      ((code ≡ server_reference)
        × (d.rule.server_id ≢ 0)
        × All (λ s. s.id ≢ d.rule.server_id) config.servers)
      ⊎ ((code ≡ interface_dns)
          × (d.rule.server_id ≡ 0)
          × (is_empty d.route.interface_id ≡ false)
          × (d.interface_dns ≡ []))
  Choice fault = ⊥

  unknown :
      (id : ℕ) (servers : List Server)
      → find_fallback id servers ≡ none
      → All (λ s. s.id ≢ id) servers
  unfolding find_fallback
  unknown id [] e = tt
  unknown id (s ∷ servers) e = elim (Bool-cases (s.id == id)) [
    | inl hit ↦ let found : some s ≡ none = rw hit at e in cc
    | inr miss ↦ (beq-false s.id id miss, unknown id servers (rw miss at e))
  ]

  through_interface-Choice :
      (base : Server) (resolvers : List Text)
      → IsBase base
      → d.rule.server_id ≡ 0
      → is_empty d.route.interface_id ≡ false
      → d.interface_dns ≡ resolvers
      → Choice (through_interface d.route base resolvers)
  unfolding through_interface Choice
  through_interface-Choice base [] b own bound dns = inr (refl, own, bound, dns)
  through_interface-Choice base (ip ∷ rest) b own bound dns =
      (base, b, resolver ip rest bound own dns refl)

  route_server-Choice : (base : Server) → IsBase base → Choice (route_server d.rule d base)
  unfolding route_server Choice
  route_server-Choice base b =
      if_cases {A = Result Server} Choice (is_empty d.route.interface_id)
        (λ free. (base, b, direct free refl))
        (λ bound.
          if_cases {A = Result Server} Choice (d.rule.server_id == 0)
            (λ own.
              through_interface-Choice base d.interface_dns b ((==_iff d.rule.server_id 0).0 own)
                bound refl)
            (λ other_server.
              (base, b, adapter bound (beq-false d.rule.server_id 0 other_server) refl)))

  selected-Choice :
      (o : Option Server)
      → find_fallback d.rule.server_id config.servers ≡ o
      → d.rule.server_id ≢ 0
      → Choice (selected o >>= route_server d.rule d)
  unfolding selected Choice
  selected-Choice none e foreign = inl (refl, foreign, unknown d.rule.server_id config.servers e)
  selected-Choice (some base) e foreign =
      let (m, same) = find_fallback-Mem d.rule.server_id config.servers base e in
      route_server-Choice base (named foreign m same)

  pub select_server-Choice : Choice (select_server config d.rule original >>= route_server d.rule d)
  unfolding select_server
  select_server-Choice =
      if_cases {A = Result Server} (λ r. Choice (r >>= route_server d.rule d))
        (d.rule.server_id == 0)
        (λ own. route_server-Choice original (given ((==_iff d.rule.server_id 0).0 own) refl))
        (λ foreign.
          selected-Choice (find_fallback d.rule.server_id config.servers) refl
            (beq-false d.rule.server_id 0 foreign))
