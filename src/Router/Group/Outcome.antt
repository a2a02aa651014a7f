-- ===== src/Router/Group/Outcome.antt =====
-- NativeDNS.Core/src/router.cpp: how `exchange_group` ends, and what it leaves in the health table.
use mathlib.Core.List.{Memᴰ}
use mathlib.Core.List.Memᴰ
use native_dns.Prelude.{
  ℕ, suc, ◌+◌, ◌*◌, ◌≤◌, Bool, true, false, not, ◌||◌, ◌≡◌, refl, sym, ap, subst, ◌∙◌, ◌⊎◌, inl,
  inr, List, [], ◌∷◌, ◌==◌, if_cases, erase_if, is_empty, leb, Code, server_disabled,
  upstream_unavailable, Result, ok, err, fault, arith,
}
use native_dns.Model.{Server}
use native_dns.Dns.Wire.{Packet}
use native_dns.Router.Group.{
  arrange, is_uncaught, is_passed_over, attempt_of, finish_attempt, try_each, exchange_candidates,
  exchange_gathered, exchange_group, Healths,
}
use native_dns.Router.Group.Candidates.{IsGroup, gather-IsGroup}

-- An attempt with a candidate: the candidate, over the primary's route and in the time that is left.
pub record IsAttempt (primary candidate attempt : Server) : Type 0 where
  pub limited : attempt.timeout_ms ≤ candidate.timeout_ms
  pub same : record candidate { route = primary.route; timeout_ms = attempt.timeout_ms } ≡ attempt

-- A server of the group that is enabled.
abbrev pub IsCandidate : List Server → Server → Type 0
IsCandidate all s = Memᴰ s all × (s.enabled ≡ true)

on-enabled : (x : Server) → not x.enabled ≡ false → x.enabled ≡ true
on-enabled x h = ground (arith, h)

erase_if-IsCandidate :
    (all : List Server) (s : Server)
    → Memᴰ s (erase_if (λ server. not server.enabled) all)
    → IsCandidate all s
erase_if-IsCandidate [] s = λ m. absurd (Memᴰ.not-nil m)
erase_if-IsCandidate (x ∷ all) s =
    if_cases {A = List Server} (λ r. Memᴰ s r → IsCandidate (x ∷ all) s) (not x.enabled)
      (λ off m. let (n, e) = erase_if-IsCandidate all s m in (Memᴰ.tail n, e))
      (λ on m. elim (Memᴰ.cases_cons m) [
        | inl here ↦ (Memᴰ.head here, ap (λ y. y.enabled) here ∙ on-enabled x on)
        | inr there ↦ let (n, e) = erase_if-IsCandidate all s there in (Memᴰ.tail n, e)
      ])

-- Nothing is left where no server is enabled.
none-enabled :
    (all : List Server)
    → is_empty (erase_if (λ server. not server.enabled) all) ≡ true
    → (s : Server) → Memᴰ s all
    → s.enabled ≡ false
none-enabled [] = λ e s m. absurd (Memᴰ.not-nil m)
none-enabled (x ∷ all) =
    if_cases {A = List Server}
      (λ r. is_empty r ≡ true → (s : Server) → Memᴰ s (x ∷ all) → s.enabled ≡ false) (not x.enabled)
      (λ off e s m. elim (Memᴰ.cases_cons m) [
        | inl here ↦ ap (λ y. y.enabled) here ∙ ground (arith, off)
        | inr there ↦ none-enabled all e s there
      ])
      (λ on e. cc)

module _ (Real : Type 0) (less : Real → Real → Bool) (blend : Real → ℕ → Real) (sample : ℕ → Real)
    (stable_sort : (Server → Server → Bool) → List Server → List Server) (clock : ℕ → ℕ)
    (exchange : ℕ → Packet → Server → Result Packet)
    (others : ℕ → Healths Real less blend sample → Healths Real less blend sample) where
  -- An attempt of the request with a candidate ended so.
  abbrev pub Tried : (Server → Type 0) → Packet → Server → Server → Result Packet → Type 0
  Tried Candidate request primary candidate r =
      Candidate candidate
      × ((n : ℕ) × (attempt : Server) × IsAttempt primary candidate attempt
          × (exchange n request attempt ≡ r))

  -- Where an outcome comes from: an attempt, or the code that stood before the attempts.
  pub Comes : (Server → Type 0) → Packet → Server → Code → Result (Packet × Server) → Type 0
  Comes Candidate request primary last (ok (packet, server)) =
      Tried Candidate request primary server (ok packet)
  Comes Candidate request primary last (err code) =
      (code ≡ last) ⊎ ((candidate : Server) × Tried Candidate request primary candidate (err code))
  Comes Candidate request primary last fault =
      (candidate : Server) × Tried Candidate request primary candidate fault

  attempt_of-IsAttempt :
      (primary candidate : Server) (deadline now : ℕ)
      → IsAttempt primary candidate (
          attempt_of Real less blend sample stable_sort clock exchange others primary candidate
            deadline now)
  unfolding attempt_of
  attempt_of-IsAttempt primary candidate deadline now = record {
    limited = omega arith;
    same = refl;
  }

  -- After a failure, what comes of the rest comes of the whole.
  Comes-later :
      (Candidate : Server → Type 0) (request : Packet) (primary candidate : Server)
      (last code : Code) (r : Result (Packet × Server))
      → Tried Candidate request primary candidate (err code)
      → Comes Candidate request primary code r
      → Comes Candidate request primary last r
  unfolding Comes
  Comes-later Candidate request primary candidate last code (ok (packet, server)) tried c = c
  Comes-later Candidate request primary candidate last code (err c) tried (inl same) =
      inr
        (candidate, subst (λ x. Tried Candidate request primary candidate (err x)) (sym same) tried)
  Comes-later Candidate request primary candidate last code (err c) tried (inr later) = inr later
  Comes-later Candidate request primary candidate last code fault tried c = c

  finish_attempt-Comes :
      (Candidate : Server → Type 0) (request : Packet) (primary candidate : Server) (last : Code)
      (again : Healths Real less blend sample
        → Code
        → Healths Real less blend sample × Result (Packet × Server))
      (n : ℕ) (r : Result Packet) (table : Healths Real less blend sample)
      → Tried Candidate request primary candidate r
      → ((t : Healths Real less blend sample) (code : Code)
          → Comes Candidate request primary code (again t code).1)
      → Comes Candidate request primary last
          (finish_attempt Real less blend sample stable_sort clock exchange others again primary
            candidate n r table).1
  unfolding finish_attempt Comes
  finish_attempt-Comes Candidate request primary candidate last again n (ok packet) table tried
        later =
      tried
  finish_attempt-Comes Candidate request primary candidate last again n (err code) table tried
        later =
      if_cases {A = Healths Real less blend sample × Result (Packet × Server)}
        (λ r. Comes Candidate request primary last r.1) (is_uncaught code)
        (λ _. inr (candidate, tried))
        (λ _. Comes-later Candidate request primary candidate last code _ tried (later _ code))
  finish_attempt-Comes Candidate request primary candidate last again n fault table tried later =
      (candidate, tried)

  -- The same of an outcome with its health table.
  Leads :
      (Server → Type 0)
      → Packet
      → Server
      → Code
      → Healths Real less blend sample × Result (Packet × Server)
      → Type 0
  Leads Candidate request primary last outcome = Comes Candidate request primary last outcome.1

  last-Leads :
      (Candidate : Server → Type 0) (request : Packet) (primary : Server) (last : Code)
      (table : Healths Real less blend sample)
      → Leads Candidate request primary last (table, err last)
  unfolding Leads Comes
  last-Leads Candidate request primary last table = inl refl

  finish_attempt-Leads :
      (Candidate : Server → Type 0) (request : Packet) (primary candidate : Server) (last : Code)
      (again : Healths Real less blend sample
        → Code
        → Healths Real less blend sample × Result (Packet × Server))
      (n : ℕ) (attempt : Server) (table : Healths Real less blend sample)
      → Candidate candidate
      → IsAttempt primary candidate attempt
      → ((t : Healths Real less blend sample) (code : Code)
          → Leads Candidate request primary code (again t code))
      → Leads Candidate request primary last (
          finish_attempt Real less blend sample stable_sort clock exchange others again primary
            candidate n
            (exchange n request attempt)
            table)
  unfolding Leads
  finish_attempt-Leads Candidate request primary candidate last again n attempt table is made
        later =
      finish_attempt-Comes Candidate request primary candidate last again n
        (exchange n request attempt) table (is, (n, attempt, made, refl)) later

  try_each-Leads :
      (Candidate : Server → Type 0) (request : Packet) (primary : Server) (all : List Server)
      (deadline : ℕ) (rest : List Server) (n : ℕ) (last : Code)
      (table : Healths Real less blend sample)
      → ((s : Server) → Memᴰ s rest → Candidate s)
      → Leads Candidate request primary last (
          try_each Real less blend sample stable_sort clock exchange others request primary all
            deadline rest n last table)
  unfolding try_each
  try_each-Leads Candidate request primary all deadline [] n last table are =
      last-Leads Candidate request primary last table
  try_each-Leads Candidate request primary all deadline (candidate ∷ rest) n last table are =
      let now = clock (4 * n + 2) in
      let later = λ (t : Healths Real less blend sample) (code : Code).
        try_each-Leads Candidate request primary all deadline rest (suc n) code t
          (λ s m. are s (Memᴰ.tail m)) in
      if_cases (Leads Candidate request primary last) (leb deadline now)
        (λ _. last-Leads Candidate request primary last table)
        (λ _.
          if_cases (Leads Candidate request primary last)
            (is_passed_over Real less blend sample stable_sort clock exchange others primary all
              candidate now (others (2 * n) table))
            (λ _. later (others (2 * n) table) last)
            (λ _.
              finish_attempt-Leads Candidate request primary candidate last _ n _
                (others (2 * n + 1) (others (2 * n) table)) (are candidate (Memᴰ.head refl))
                (attempt_of-IsAttempt primary candidate deadline now) later))

  -- Without a candidate, or with an outcome of the attempts.
  abbrev pub Ends : List Server → Packet → Server → Result (Packet × Server) → Type 0
  Ends all request primary r =
      ((r ≡ err server_disabled) × ((s : Server) → Memᴰ s all → s.enabled ≡ false))
      ⊎ Comes (IsCandidate all) request primary upstream_unavailable r

  exchange_candidates-Ends :
      (all : List Server) (request : Packet) (primary : Server)
      (table : Healths Real less blend sample)
      → ((f : Server → Server → Bool) (xs : List Server) (s : Server)
          → Memᴰ s (stable_sort f xs)
          → Memᴰ s xs)
      → Ends all request primary
          (exchange_candidates Real less blend sample stable_sort clock exchange others request
            primary table
            (erase_if (λ server. not server.enabled) all)).1
  unfolding exchange_candidates arrange Leads
  exchange_candidates-Ends all request primary table sorted =
      if_cases {A = Healths Real less blend sample × Result (Packet × Server)}
        (λ r. Ends all request primary r.1) (is_empty (erase_if (λ server. not server.enabled) all))
        (λ none. inl (refl, none-enabled all none))
        (λ _. inr (
          try_each-Leads (IsCandidate all) request primary _ _ _ 0 upstream_unavailable _
            (λ s m. erase_if-IsCandidate all s (sorted _ _ s m))))

  -- For a primary with an identifier and fallbacks, where the sort gives nothing that it was not given:
  -- exchanging with the group always ends. A message is what an attempt with an enabled server of the
  -- group gave, over the primary's route and within the server's timeout, and that server is named with
  -- it; an error is that of such an attempt, or "server disabled" where none is enabled, or "upstream
  -- unavailable"; and this holds whatever other requests make of the health table meanwhile.
  pub exchange_group-Ends :
      (servers : List Server) (request : Packet) (primary : Server)
      (table : Healths Real less blend sample)
      → ((f : Server → Server → Bool) (xs : List Server) (s : Server)
          → Memᴰ s (stable_sort f xs)
          → Memᴰ s xs)
      → (primary.id == 0 || is_empty primary.fallback_ids) ≡ false
      → (all : List Server) × IsGroup servers primary all
        × Ends all request primary
            (exchange_group Real less blend sample stable_sort clock exchange others servers request
              primary table).1
  unfolding exchange_group exchange_gathered
  exchange_group-Ends servers request primary table sorted grouped =
      let (all, same, group) = gather-IsGroup servers primary in
      (all, group, rw (grouped, same) (exchange_candidates-Ends all request primary table sorted))
