-- ===== src/Router/Cache/Hits.antt =====
-- NativeDNS.Core/src/router.cpp: what `exchange_cached` answers from its cache.
use native_dns.Prelude.{
  ℕ, ◌+◌, ◌*◌, ◌<◌, min, Bool, true, false, ◌≡◌, refl, sym, ap, subst, ◌∙◌, inl, inr, Option, none,
  some, some-injective, [], ◌∷◌, leb, if◌then◌else◌, if_cases, Bool-cases, length, text_eq, Text,
  lookup, lookup-put_self, Result, ok, ok-injective, >>=-eq-ok, arith,
}
use native_dns.Dns.Wire.{Packet}
use native_dns.Dns.Answer.{DnsAnswer}
use native_dns.Dns.Ttl.{age_dns_response}
use native_dns.Router.Cache.{
  CacheEntry, Entries, Tables, entry_bytes, Begun, answered, waiting, refused, leading,
  start_pending, join_pending, look_up, begin_request, settle, publish, purge, purge_tables,
  sub_size, seconds_between, max_ttl, second, store_entry, evict,
}

-- What is not expired is kept.
purge-kept :
    (now : ℕ) (key : Text) (e : CacheEntry) (cache : Entries) (bytes : ℕ)
    → lookup key cache ≡ some e
    → leb e.expires now ≡ false
    → lookup key (purge now cache bytes).0 ≡ some e
unfolding purge lookup
purge-kept now key e [] bytes h alive = cc
purge-kept now key e ((k, f) ∷ cache) bytes h alive = elim (Bool-cases (text_eq k key)) [
  | inl hit ↦ let same : f ≡ e = some-injective (rw hit at h) in rw (same, alive, hit) refl
  | inr miss ↦
      let rest = λ (b : ℕ). purge-kept now key e cache b (rw miss at h) alive in
      if_cases {A = Entries × ℕ} (λ r. lookup key r.0 ≡ some e) (leb f.expires now)
        (λ _. rest (sub_size bytes (entry_bytes k f.packet))) (λ _. rw miss (rest bytes))
]

abbrev pub stored_entry : ℕ → Packet → DnsAnswer → ℕ → CacheEntry
stored_entry now packet parsed used = record {
  packet = packet;
  stored = now;
  expires = now + min parsed.cache_ttl max_ttl * second;
  used_server_id = used;
}

store_entry-lookup :
    (now : ℕ) (key : Text) (packet : Packet) (parsed : DnsAnswer) (used : ℕ) (t s : Tables)
    → store_entry now key packet parsed used t ≡ ok s
    → lookup key s.cache ≡ some (stored_entry now packet parsed used)
unfolding store_entry
store_entry-lookup now key packet parsed used t s e =
    let ((cache, bytes), _, h) =
      >>=-eq-ok (evict (length t.cache + 1) (entry_bytes key packet) t.cache t.cache_bytes) _ e in
    rw (sym (ok-injective h)) (lookup-put_self key (stored_entry now packet parsed used) cache)

chosen {ℓ} : {A : Type ℓ} {b : Bool} (x y : A) → b ≡ true → (if b then x else y) ≡ x
chosen x y e = rw e refl

-- In the state that publishing a cacheable message leaves, a request with the same key that
-- begins before the message expires is answered from the cache: with the outcome of ageing that
-- message by the seconds between, under the request's identifier.
pub publish-begin_request :
    (now later : ℕ) (key : Text) (id tx : ℕ) (packet : Packet) (parsed : DnsAnswer) (used : ℕ)
    (t u : Tables)
    → publish now key id packet parsed used t ≡ ok u
    → parsed.cacheable ≡ true
    → later < now + min parsed.cache_ttl max_ttl * second
    → (begin_request later key tx u).1
      ≡ answered (age_dns_response packet tx (seconds_between now later)) used
unfolding publish settle begin_request purge_tables look_up
publish-begin_request now later key id tx packet parsed used t u e cacheable soon =
    let (s, stored, h) =
      >>=-eq-ok (if parsed.cacheable then store_entry now key packet parsed used t else ok t) _ e in
    let found =
      store_entry-lookup now key packet parsed used t s (sym (chosen _ _ cacheable) ∙ stored) in
    let alive : leb (stored_entry now packet parsed used).expires later ≡ false =
      ground (arith, soon) in
    let kept =
      purge-kept later key (stored_entry now packet parsed used) s.cache s.cache_bytes found
        alive in
    rw (sym (ok-injective h), kept) refl

kept-alive :
    (now : ℕ) (key : Text) (e : CacheEntry) (k : Text) (f : CacheEntry) (rest : Entries)
    → leb f.expires now ≡ false
    → (lookup key rest ≡ some e → now < e.expires)
    → lookup key ((k, f) ∷ rest) ≡ some e
    → now < e.expires
unfolding lookup
kept-alive now key e k f rest alive behind h = elim (Bool-cases (text_eq k key)) [
  | inl hit ↦
      let same : f ≡ e = some-injective (rw hit at h) in
      ground (arith, subst (λ x. leb x.expires now ≡ false) same alive)
  | inr miss ↦ behind (rw miss at h)
]

purge-alive :
    (now : ℕ) (key : Text) (e : CacheEntry) (cache : Entries) (bytes : ℕ)
    → lookup key (purge now cache bytes).0 ≡ some e
    → now < e.expires
unfolding purge lookup
purge-alive now key e [] bytes h = cc
purge-alive now key e ((k, f) ∷ cache) bytes h =
    if_cases {A = Entries × ℕ} (λ r. lookup key r.0 ≡ some e → now < e.expires) (leb f.expires now)
      (λ _. purge-alive now key e cache (sub_size bytes (entry_bytes k f.packet)))
      (λ alive.
        kept-alive now key e k f (purge now cache bytes).0 alive
          (purge-alive now key e cache bytes))
      h

answer_of : Begun → Option (Result Packet)
answer_of (answered reply used) = some reply
answer_of (waiting id) = none
answer_of (refused code) = none
answer_of (leading id) = none

start_pending-unanswered : (key : Text) (t : Tables) → answer_of (start_pending key t).1 ≡ none
unfolding start_pending answer_of
start_pending-unanswered key t =
    if_cases {A = Tables × Begun} (λ r. answer_of r.1 ≡ none) (leb 256 (length t.pending))
      (λ _. refl) (λ _. refl)

join_pending-unanswered :
    (key : Text) (o : Option ℕ) (t : Tables) → answer_of (join_pending key o t).1 ≡ none
unfolding join_pending answer_of
join_pending-unanswered key (some id) t = refl
join_pending-unanswered key none t = start_pending-unanswered key t

look_up-fresh :
    (now : ℕ) (key : Text) (tx : ℕ) (t : Tables) (o : Option CacheEntry) (reply : Result Packet)
    (used : ℕ)
    → lookup key t.cache ≡ o
    → ((e : CacheEntry) → lookup key t.cache ≡ some e → now < e.expires)
    → (look_up now key tx o t).1 ≡ answered reply used
    → (e : CacheEntry) × (lookup key t.cache ≡ some e)
      × (now < e.expires)
      × (reply ≡ age_dns_response e.packet tx (seconds_between e.stored now))
unfolding look_up answer_of
look_up-fresh now key tx t (some e) reply used found fresh h =
    (e, found, fresh e found, sym (some-injective (ap answer_of h)))
look_up-fresh now key tx t none reply used found fresh h =
    let unanswered = sym (join_pending-unanswered key (lookup key t.pending) t) ∙ ap answer_of h in
    cc

-- A request that is answered from the cache is answered with an entry that has not expired, aged by
-- the seconds since it was stored.
pub begin_request-fresh :
    (now : ℕ) (key : Text) (tx : ℕ) (t : Tables) (reply : Result Packet) (used : ℕ)
    → (begin_request now key tx t).1 ≡ answered reply used
    → (e : CacheEntry) × (lookup key (purge_tables now t).cache ≡ some e)
      × (now < e.expires)
      × (reply ≡ age_dns_response e.packet tx (seconds_between e.stored now))
unfolding begin_request
begin_request-fresh now key tx t reply used h =
    look_up-fresh now key tx (purge_tables now t) (lookup key (purge_tables now t).cache) reply used
      refl (λ e found. purge-alive now key e t.cache t.cache_bytes found) h
