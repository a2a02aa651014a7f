-- ===== src/Network/Interfaces.antt =====
-- NativeDNS.Core/include/nativedns/network.hpp and NativeDNS.Core/src/network.cpp: adapters, their
-- snapshots, `find_interface`, `network_route_key` and `NetworkMonitor::refresh`.
pub mod Refresh
use native_dns.Prelude.{
  ℕ, zero, suc, ◌+◌, ◌/◌, ◌%◌, Bool, true, false, not, ◌&&◌, ◌||◌, Option, none, some, List, [],
  ◌∷◌, ◌++◌, ltb, ◌==◌, if◌then◌else◌, is_empty, drop, Text, codes, text_eq, text_ltb,
  not_implemented, interface_ambiguous, Result, ok, err, ◌>>=◌, ◌>>◌, throw_if,
}
use native_dns.Model.{NetworkRoute}
use native_dns.Rules.Names.{lower}
use native_dns.Rules.Validate.{starts_with}

pub record InterfaceInfo : Type 0 where
  pub id : Text
  pub name : Text
  pub description : Text
  pub dns_suffix : Text
  pub luid : ℕ
  pub index4 : ℕ
  pub index6 : ℕ
  pub metric4 : ℕ
  pub metric6 : ℕ
  pub mtu : ℕ
  pub up : Bool
  pub loopback : Bool
  pub captive_portal : Bool
  pub addresses : List Text
  pub dns_servers : List Text
  pub gateways : List Text

pub record NetworkSnapshot : Type 0 where
  pub generation : ℕ
  pub interfaces : List InterfaceInfo
  pub error : Text

-- The digits of `std::to_string`; a 64 bit number has at most twenty.
unfoldable pub digits : ℕ → ℕ → Text
digits zero n = []
digits (suc left) n =
    let front = digits left (n / 10) in
    let digit = b'0' + n % 10 in if ltb n 10 then digit ∷ [] else front ++ digit ∷ []

unfoldable pub to_string : ℕ → Text
unfolding digits
to_string n = digits 20 n

unfoldable pub lower_text : Text → Text
unfolding lower
lower_text [] = []
lower_text (c ∷ text) = lower c ∷ lower_text text

-- The lambda `canonical`.
unfoldable pub canonical : Text → Text
unfolding lower_text starts_with
canonical value =
    if starts_with (codes "guid:") (lower_text value)
    then drop 5 (lower_text value)
    else lower_text value

unfoldable pub is_selector_type : Text → Bool
is_selector_type match =
    text_eq match (codes "id")
    || text_eq match (codes "guid")
    || text_eq match (codes "index")
    || text_eq match (codes "name")
    || text_eq match (codes "suffix")

unfoldable pub interface_matches : Text → Text → InterfaceInfo → Bool
unfolding canonical to_string
interface_matches match needle info =
    if text_eq match (codes "name")
    then text_eq (canonical info.name) needle || text_eq (canonical info.description) needle
    else (if text_eq match (codes "suffix")
        then text_eq (canonical info.dns_suffix) needle
        else text_eq (canonical info.id) needle
          || text_eq (to_string info.index4) needle
          || text_eq (to_string info.index6) needle)

-- The loop over the adapters, with the one that was found.
unfoldable pub only_match :
    (InterfaceInfo → Bool)
    → List InterfaceInfo
    → Option InterfaceInfo
    → Result (Option InterfaceInfo)
only_match test [] found = ok found
only_match test (info ∷ rest) none =
    let with_it = only_match test rest (some info) in
    let without_it = only_match test rest none in if test info then with_it else without_it
only_match test (info ∷ rest) (some first) =
    let further = only_match test rest (some first) in
    if test info then err interface_ambiguous else further

unfoldable pub find_interface : NetworkSnapshot → Text → Text → Result (Option InterfaceInfo)
unfolding canonical is_selector_type interface_matches only_match
find_interface snapshot id match = do
  let needle = canonical id
  throw_if (not (is_selector_type match)) not_implemented
  only_match (interface_matches match needle) snapshot.interfaces none

unfoldable pub network_route_key : NetworkRoute → Text
unfolding to_string
network_route_key route =
    route.interface_id
    ++ b'|' ∷ to_string route.index4
    ++ b'|' ∷ to_string route.index6
    ++ b'|' ∷ to_string route.scope6
    ++ b'|' ∷ to_string route.generation

unfoldable pub texts_eq : List Text → List Text → Bool
texts_eq [] [] = true
texts_eq (a ∷ xs) (b ∷ ys) = text_eq a b && texts_eq xs ys
texts_eq _ _ = false

unfoldable pub bool_eq : Bool → Bool → Bool
bool_eq true b = b
bool_eq false b = not b

-- The defaulted `operator==`.
unfoldable pub info_eq : InterfaceInfo → InterfaceInfo → Bool
unfolding texts_eq bool_eq
info_eq a b =
    text_eq a.id b.id
    && text_eq a.name b.name
    && text_eq a.description b.description
    && text_eq a.dns_suffix b.dns_suffix
    && a.luid == b.luid
    && a.index4 == b.index4
    && a.index6 == b.index6
    && a.metric4 == b.metric4
    && a.metric6 == b.metric6
    && a.mtu == b.mtu
    && bool_eq a.up b.up
    && bool_eq a.loopback b.loopback
    && bool_eq a.captive_portal b.captive_portal
    && texts_eq a.addresses b.addresses
    && texts_eq a.dns_servers b.dns_servers
    && texts_eq a.gateways b.gateways

unfoldable pub infos_eq : List InterfaceInfo → List InterfaceInfo → Bool
unfolding info_eq
infos_eq [] [] = true
infos_eq (a ∷ xs) (b ∷ ys) = info_eq a b && infos_eq xs ys
infos_eq _ _ = false

-- One insertion of a sort by identifier.
unfoldable pub insert_info : InterfaceInfo → List InterfaceInfo → List InterfaceInfo
unfolding text_ltb
insert_info a [] = a ∷ []
insert_info a (b ∷ bs) =
    let rest = insert_info a bs in if text_ltb b.id a.id then b ∷ rest else a ∷ b ∷ bs

unfoldable pub sort_infos : List InterfaceInfo → List InterfaceInfo
unfolding insert_info
sort_infos [] = []
sort_infos (a ∷ xs) = insert_info a (sort_infos xs)

-- What `source_` gave: adapters, or the text of an exception.
pub data Enumeration : Type 0 where
  listed : List InterfaceInfo → Enumeration
  failed : Text → Enumeration

unfoldable pub observed : NetworkSnapshot → Enumeration → NetworkSnapshot
unfolding sort_infos
observed previous (listed interfaces) = record {
  generation = 0;
  interfaces = sort_infos interfaces;
  error = [];
}
observed previous (failed error) = record {
  generation = 0;
  interfaces = previous.interfaces;
  error = error;
}

-- `NetworkMonitor::refresh`, the whole of it under `refresh_mutex_`.
unfoldable pub refresh : Bool → Enumeration → NetworkSnapshot → NetworkSnapshot
unfolding observed infos_eq
refresh invalidate source previous =
    let next = observed previous source in
    if not invalidate
      && infos_eq next.interfaces previous.interfaces
      && text_eq next.error previous.error
    then previous
    else record next { generation = (previous.generation + 1) % 18446744073709551616 }
