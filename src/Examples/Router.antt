-- ===== src/Examples/Router.antt =====
-- The theorems on the router's cache at one query that is asked, joined and answered.
use native_dns.Prelude.{
  ◌≤◌, ◌<◌, true, false, ◌≡◌, refl, [], ◌∷◌, lookup, text_eq, get_elem?, length, ◌+◌, some, Text,
  codes, ok, put, erase, timeout, arith,
}
use native_dns.Dns.Answer.{DnsAnswer}
use native_dns.Dns.Ttl.{age_dns_response}
use native_dns.Examples.Packets.{response}
use native_dns.Router.Cache.{
  CacheEntry, Tables, new_pending, entry_bytes, max_cache_bytes, waiting, answered, begin_request,
  publish, abandon, evict, seconds_between, store_entry, purge_tables,
}
use native_dns.Router.Cache.Reachable.{IsSound, enlist}
use native_dns.Router.Cache.Settle.{IsSettled, published_outcome, abandoned_outcome}
use native_dns.Router.Cache.Histories.{
  System, initial, begun, abandoned, Reached, started, stepped, Reached-IsSound, leader-publish,
  begin_request-waiting, Turn-get_elem?, Turn,
}
use native_dns.Router.Cache.Hits.{publish-begin_request, begin_request-fresh, stored_entry}

abbrev key : Text
key = codes "k"

abbrev led : System
led = record {
  tables = record {
    cache = [];
    cache_bytes = 0;
    pending = (key, 0) ∷ [];
    objects = new_pending ∷ [];
  };
  leaders = (key, 0) ∷ [];
}

led-Turn : Turn initial led
unfolding begin_request enlist lookup put
led-Turn = begun 5 key 7 initial

led-Reached : Reached led
led-Reached = stepped initial led started led-Turn

Reached-IsSound_example : IsSound led.leaders led.tables
Reached-IsSound_example = Reached-IsSound led led-Reached

led-lookup : lookup key led.leaders ≡ some 0
unfolding lookup text_eq
led-lookup = refl

abbrev parsed : DnsAnswer
parsed = record {
  rcode = 0;
  truncated = false;
  authenticated_data = false;
  addresses = [];
  cache_ttl = 60;
  cacheable = true;
}

small : entry_bytes key (1 ∷ 2 ∷ []) ≤ max_cache_bytes
unfolding entry_bytes
small = omega arith

leader-publish_example :
    (t : Tables) × (publish 10 key 0 (1 ∷ 2 ∷ []) parsed 3 led.tables ≡ ok t)
    × IsSettled key 0 (published_outcome (1 ∷ 2 ∷ []) 3) led.leaders led.tables t
leader-publish_example =
    leader-publish led 10 key 0 (1 ∷ 2 ∷ []) parsed 3 led-Reached led-lookup small

begin_request-waiting_example : (begin_request 9 key 8 led.tables).1 ≡ waiting 0
begin_request-waiting_example = begin_request-waiting led 9 key 8 0 led-Reached led-lookup

-- The leader gives up, and another request begins.
abbrev left : System
left = record {
  tables = record {
    cache = [];
    cache_bytes = 0;
    pending = [];
    objects = abandoned_outcome timeout ∷ [];
  };
  leaders = [];
}

left-Turn : Turn led left
unfolding abandon lookup text_eq erase
left-Turn = abandoned key 0 timeout led led-lookup

abbrev again : System
again = record {
  tables = record {
    cache = [];
    cache_bytes = 0;
    pending = (key, 1) ∷ [];
    objects = abandoned_outcome timeout ∷ new_pending ∷ [];
  };
  leaders = (key, 1) ∷ [];
}

again-Turn : Turn left again
unfolding begin_request enlist lookup put
again-Turn = begun 6 key 8 left

Turn-get_elem?_example : get_elem? again.tables.objects 0 ≡ some (abandoned_outcome timeout)
Turn-get_elem?_example =
    Turn-get_elem? left again 0 (abandoned_outcome timeout) (stepped led left led-Reached left-Turn)
      again-Turn refl refl

-- The entry is stored at 10 ns and answers a request one second later.
abbrev published_tables : Tables
published_tables = record {
  cache = (key, stored_entry 10 response parsed 3) ∷ [];
  cache_bytes = length response + 1;
  pending = [];
  objects = published_outcome response 3 ∷ [];
}

published_run : publish 10 key 0 response parsed 3 led.tables ≡ ok published_tables
unfolding publish store_entry evict put erase lookup entry_bytes text_eq
published_run = refl

publish-begin_request_example :
    (begin_request 1000000010 key 77 published_tables).1
    ≡ answered (age_dns_response response 77 (seconds_between 10 1000000010)) 3
publish-begin_request_example =
    publish-begin_request 10 1000000010 key 0 77 response parsed 3 led.tables published_tables
      published_run refl (omega arith)

begin_request-fresh_example :
    (e : CacheEntry) × (lookup key (purge_tables 1000000010 published_tables).cache ≡ some e)
    × (1000000010 < e.expires)
    × (age_dns_response response 77 (seconds_between 10 1000000010)
        ≡ age_dns_response e.packet 77 (seconds_between e.stored 1000000010))
begin_request-fresh_example =
    begin_request-fresh 1000000010 key 77 published_tables
      (age_dns_response response 77 (seconds_between 10 1000000010)) 3 publish-begin_request_example
