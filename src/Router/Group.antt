-- ===== src/Router/Group.antt =====
-- NativeDNS.Core/src/router.cpp: `exchange_group`, the attempts on a server and its fallbacks.
-- `double` is a parameter, as are the clock (its readings in order), the transports (`exchange`, by the
-- number of the attempt), `std::stable_sort`, and `others`: what requests that run at the same time make
-- of the shared table between two critical sections. Times are nanoseconds; names of errors in the log
-- and messages are left out.
pub mod Invariant
pub mod Candidates
pub mod Outcome
use native_dns.Prelude.{
  ℕ, zero, suc, ◌+◌, ◌-◌, ◌*◌, ◌/◌, ◌%◌, ◌^◌, min, max, Bool, true, false, not, ◌&&◌, ◌||◌, Option,
  none, some, List, [], ◌∷◌, ◌++◌, ltb, leb, ◌==◌, if◌then◌else◌, any, find_if, erase_if, is_empty,
  length, Text, lookup, put, Code, server_disabled, upstream_unavailable, cancelled, internal,
  Result, ok, err, fault, ◌>>=◌, ◌>>◌, throw_if,
}
use native_dns.Model.{Server, NetworkRoute}
use native_dns.Rules.Validate.{Ids, has_id}
use native_dns.Network.Interfaces.{to_string, network_route_key}
use native_dns.Dns.Wire.{Packet}
use native_dns.Router.Cache.{second}

-- The lists `candidates` and `added`.
pub record Gathered : Type 0 where
  pub candidates : List Server
  pub added : Ids

abbrev pub nothing_gathered : Gathered
nothing_gathered = record { candidates = []; added = [] }

-- The search for a fallback.
unfoldable pub find_fallback : ℕ → List Server → Option Server
find_fallback id servers = find_if (λ server. server.id == id) servers

unfoldable pub append_found :
    (Server → Gathered → Result Gathered) → Option Server → Gathered → Result Gathered
append_found append none g = ok g
append_found append (some server) g = append server g

-- The loop over `server.fallback_ids`.
unfoldable pub append_fallbacks :
    (Server → Gathered → Result Gathered) → List Server → List ℕ → Gathered → Result Gathered
unfolding append_found find_fallback
append_fallbacks append servers [] g = ok g
append_fallbacks append servers (id ∷ ids) g = do
  next ← append_found append (find_fallback id servers) g
  append_fallbacks append servers ids next

unfoldable pub added_to : Server → Gathered → Gathered
added_to server g = record { candidates = g.candidates ++ server ∷ []; added = server.id ∷ g.added }

-- The recursive lambda `append`, on fuel for its depth.
unfoldable pub append : ℕ → List Server → Server → Gathered → Result Gathered
unfolding append_fallbacks has_id added_to
append zero servers server g = fault
append (suc depth) servers server g =
    let deeper =
      append_fallbacks (append depth servers) servers server.fallback_ids (added_to server g) in
    if has_id server.id g.added then ok g else deeper

-- Every nested call adds the identifier of one more server; the primary's may be that of none.
unfoldable pub gather : List Server → Server → Result (List Server)
unfolding append
gather servers primary = do
  g ← append (suc (suc (length servers))) servers primary nothing_gathered
  ok (erase_if (λ server. not server.enabled) g.candidates)

abbrev pub millisecond : ℕ
millisecond = 1000000

unfoldable pub budget : List Server → ℕ → ℕ
budget [] spent = spent
budget (server ∷ servers) spent = budget servers (min 120000 (spent + server.timeout_ms))

unfoldable pub is_uncaught : Code → Bool
is_uncaught cancelled = true
is_uncaught internal = true
is_uncaught _ = false

-- `30u << shift` seconds from the second failure on.
unfoldable pub retry_delay : ℕ → ℕ
retry_delay failures = 30 * 2 ^ min (failures - 2) 3 * second

-- `!=` on Booleans
unfoldable pub differs : Bool → Bool → Bool
differs true b = not b
differs false b = b

module _ (Real : Type 0) (less : Real → Real → Bool) (blend : Real → ℕ → Real)
    (sample : ℕ → Real) where
  pub record Health : Type 0 where
    pub consecutive_failures : ℕ
    pub retry_after : ℕ
    pub latency_ms : Option Real

  abbrev pub new_health : Health
  new_health = record { consecutive_failures = 0; retry_after = 0; latency_ms = none }

  abbrev pub Healths : Type 0
  Healths = List (Text × Health)

  -- `health[key]`: a missing entry reads as a new one.
  unfoldable pub health_at : Text → Healths → Health
  health_at key table = elim (lookup key table) [ none ↦ new_health | some health ↦ health ]

  -- `try_emplace`
  unfoldable pub try_emplace : Text → Healths → Healths
  try_emplace key table = elim (lookup key table) [
    | none ↦ put key new_health table
    | some _ ↦ table
  ]

  unfoldable pub health_key : Server → Server → Text
  health_key primary server = to_string server.id ++ b'|' ∷ network_route_key primary.route

  unfoldable pub emplace_all : Server → List Server → Healths → Healths
  unfolding try_emplace health_key
  emplace_all primary [] table = table
  emplace_all primary (server ∷ servers) table =
      emplace_all primary servers (try_emplace (health_key primary server) table)

  unfoldable pub faster : Option Real → Option Real → Bool
  faster (some a) (some b) = less a b
  faster _ _ = false

  -- The comparison of the sort.
  unfoldable pub comes_first : ℕ → Bool → Health → Health → Bool
  unfolding faster differs
  comes_first now any_ready a b =
      let a_open = any_ready && ltb now a.retry_after in
      let b_open = any_ready && ltb now b.retry_after in
      let a_probe = leb 2 a.consecutive_failures && leb a.retry_after now in
      let b_probe = leb 2 b.consecutive_failures && leb b.retry_after now in
      if differs a_open b_open
      then not a_open
      else (if differs a_probe b_probe then a_probe else faster a.latency_ms b.latency_ms)

  -- What a success leaves.
  unfoldable pub succeeded : ℕ → Health → Health
  succeeded elapsed state = record {
    consecutive_failures = 0;
    retry_after = 0;
    latency_ms =
        some (elim state.latency_ms [ none ↦ sample elapsed | some old ↦ blend old elapsed ]);
  }

  -- What a failure leaves; the count is an `unsigned`.
  unfoldable pub failed : ℕ → Health → Health
  unfolding retry_delay
  failed now state =
      let failures = (state.consecutive_failures + 1) % 4294967296 in
      let counted = record state { consecutive_failures = failures } in
      if leb 2 failures
      then record counted { retry_after = now + retry_delay failures }
      else counted

  module _ (stable_sort : (Server → Server → Bool) → List Server → List Server) (clock : ℕ → ℕ)
      (exchange : ℕ → Packet → Server → Result Packet) (others : ℕ → Healths → Healths) where
    -- The first critical section: the order of the attempts.
    unfoldable pub arrange : Server → List Server → Healths → List Server × Healths
    unfolding emplace_all health_at health_key comes_first
    arrange primary candidates before =
        let now = clock 1 in
        let room = if ltb 8192 (length before + length candidates) then [] else before in
        let table = emplace_all primary candidates room in
        let health = λ (server : Server). health_at (health_key primary server) table in
        let any_ready = any (λ server. leb (health server).retry_after now) candidates in
        (
          stable_sort (λ left right. comes_first now any_ready (health left) (health right))
              candidates,
          table,
        )

    -- The second: a server that is to be retried later is passed over while another is ready.
    unfoldable pub is_passed_over : Server → List Server → Server → ℕ → Healths → Bool
    unfolding health_at health_key
    is_passed_over primary candidates candidate now table =
        let health = λ (server : Server). health_at (health_key primary server) table in
        ltb now (health candidate).retry_after
        && any (λ server. not (server.id == candidate.id) && leb (health server).retry_after now)
            candidates

    unfoldable pub attempt_of : Server → Server → ℕ → ℕ → Server
    attempt_of primary candidate deadline now =
        let remaining = (deadline - now) / millisecond in
        record candidate {
          route = primary.route;
          timeout_ms = min candidate.timeout_ms (max 1 remaining) % 4294967296;
        }

    -- Behind the exchange; `again` goes on with the code of the failure.
    unfoldable pub finish_attempt :
        (Healths → Code → Healths × Result (Packet × Server))
        → Server
        → Server
        → ℕ
        → Result Packet
        → Healths
        → Healths × Result (Packet × Server)
    unfolding health_at health_key succeeded failed is_uncaught
    finish_attempt again primary candidate n (ok packet) table =
        let key = health_key primary candidate in
        let elapsed = clock (4 * n + 4) - clock (4 * n + 3) in
        (put key (succeeded elapsed (health_at key table)) table, ok (packet, candidate))
    finish_attempt again primary candidate n (err code) table =
        let key = health_key primary candidate in
        let next = again (put key (failed (clock (4 * n + 5)) (health_at key table)) table) code in
        if is_uncaught code then (table, err code) else next
    finish_attempt again primary candidate n fault table = (table, fault)

    -- The loop over the candidates in order; attempt `n` reads the clock up to four times.
    unfoldable pub try_each :
        Packet
        → Server
        → List Server
        → ℕ
        → List Server
        → ℕ
        → Code
        → Healths
        → Healths × Result (Packet × Server)
    unfolding is_passed_over attempt_of finish_attempt
    try_each request primary candidates deadline [] n last table = (table, err last)
    try_each request primary candidates deadline (candidate ∷ rest) n last table =
        let now = clock (4 * n + 2) in
        let again = λ (t : Healths) (code : Code).
          try_each request primary candidates deadline rest (suc n) code t in
        let seen = others (2 * n) table in
        let outcome = exchange n request (attempt_of primary candidate deadline now) in
        if leb deadline now
        then (table, err last)
        else (if is_passed_over primary candidates candidate now seen
            then again seen last
            else finish_attempt again primary candidate n outcome (others (2 * n + 1) seen))

    unfoldable pub exchange_candidates :
        Packet → Server → Healths → List Server → Healths × Result (Packet × Server)
    unfolding arrange budget try_each
    exchange_candidates request primary table candidates =
        let deadline = clock 0 + budget candidates 0 * millisecond in
        let (order, arranged) = arrange primary candidates table in
        if is_empty candidates
        then (table, err server_disabled)
        else try_each request primary order deadline order 0 upstream_unavailable arranged

    unfoldable pub exchange_gathered :
        Packet → Server → Healths → Result (List Server) → Healths × Result (Packet × Server)
    unfolding exchange_candidates
    exchange_gathered request primary table (ok candidates) =
        exchange_candidates request primary table candidates
    exchange_gathered request primary table (err code) = (table, err code)
    exchange_gathered request primary table fault = (table, fault)

    -- An address of the system's own, or a server without fallbacks, has a single attempt.
    unfoldable pub exchange_group :
        List Server → Packet → Server → Healths → Healths × Result (Packet × Server)
    unfolding exchange_gathered gather
    exchange_group servers request primary table =
        let alone = exchange 0 request primary >>= λ packet. ok (packet, primary) in
        if primary.id == 0 || is_empty primary.fallback_ids
        then (table, alone)
        else exchange_gathered request primary table (gather servers primary)
