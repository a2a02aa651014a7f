-- ===== src/Config/Values.antt =====
-- NativeDNS.Core/src/config.cpp: the values of attributes, lists in one attribute and metadata;
-- NativeDNS.Core/src/rules.cpp and NativeDNS.Core/src/dns_packet.cpp: the names of enumerations.
pub mod Lists
use native_dns.Prelude.{
  ℕ, zero, suc, Bool, true, false, not, ◌&&◌, ◌||◌, Option, none, some, List, [], ◌∷◌, ◌++◌, ltb,
  ◌==◌, if◌then◌else◌, is_empty, Text, codes, text_eq, member, lookup, put, Code, other, protocol,
  action, Result, ok, err, ◌>>=◌, ◌>>◌, throw_if,
}
use native_dns.Model.{
  Protocol, udp, tcp, doh, dot, doh3, doq, dnscrypt, anonymized_dnscrypt, Action, process, bypass,
  block,
}
use native_dns.Rules.Options.{decimal}
use native_dns.Network.Interfaces.{to_string}
use native_dns.Config.Parser.{Node, node, Nodes, no_nodes, first_node, is_taken}

abbrev pub config_number : Code
config_number = other (codes "CONFIG_NUMBER")

abbrev pub config_bool : Code
config_bool = other (codes "CONFIG_BOOL")

abbrev pub config_field : Code
config_field = other (codes "CONFIG_FIELD")

unfoldable pub name_of : Node → Text
name_of (node name attrs children) = name

unfoldable pub attrs_of : Node → List (Text × Text)
attrs_of (node name attrs children) = attrs

unfoldable pub children_of : Node → Nodes
children_of (node name attrs children) = children

unfoldable pub has_no_nodes : Nodes → Bool
has_no_nodes no_nodes = true
has_no_nodes (first_node n nodes) = false

unfoldable pub attr : Node → Text → Text → Text
unfolding attrs_of
attr n key fallback = elim (lookup key (attrs_of n)) [ none ↦ fallback | some value ↦ value ]

-- `std::from_chars` into a `uint32_t` takes decimal digits up to the largest.
unfoldable pub in_word : Option ℕ → Result ℕ
in_word none = err config_number
in_word (some value) = if ltb 4294967295 value then err config_number else ok value

unfoldable pub read_number : Text → Result ℕ
unfolding in_word decimal
read_number text = in_word (decimal text)

unfoldable pub num : Node → Text → ℕ → Result ℕ
unfolding read_number attr to_string
num n key fallback = read_number (attr n key (to_string fallback))

unfoldable pub flag : Node → Text → Bool → Result Bool
unfolding attr
flag n key fallback =
    let value = attr n key (if fallback then codes "1" else codes "0") in
    if not (text_eq value (codes "0")) && not (text_eq value (codes "1"))
    then err config_bool
    else ok (text_eq value (codes "1"))

unfoldable pub protocol_name : Protocol → Text
protocol_name udp = codes "udp"
protocol_name tcp = codes "tcp"
protocol_name doh = codes "doh"
protocol_name dot = codes "dot"
protocol_name doh3 = codes "doh3"
protocol_name doq = codes "doq"
protocol_name dnscrypt = codes "dnscrypt"
protocol_name anonymized_dnscrypt = codes "anonymized_dnscrypt"

abbrev pub protocols : List Protocol
protocols = udp ∷ tcp ∷ doh ∷ dot ∷ doh3 ∷ doq ∷ dnscrypt ∷ anonymized_dnscrypt ∷ []

-- The loop over the protocols.
unfoldable pub named_protocol : Text → List Protocol → Option Protocol
unfolding protocol_name
named_protocol name [] = none
named_protocol name (p ∷ rest) =
    let later = named_protocol name rest in if text_eq name (protocol_name p) then some p else later

unfoldable pub protocol_or_plain : Text → Option Protocol → Result Protocol
protocol_or_plain name none = if text_eq name (codes "plain") then ok udp else err protocol
protocol_or_plain name (some p) = ok p

unfoldable pub read_protocol : Text → Result Protocol
unfolding named_protocol protocol_or_plain
read_protocol name = protocol_or_plain name (named_protocol name protocols)

unfoldable pub action_name : Action → Text
action_name process = codes "process"
action_name bypass = codes "bypass"
action_name block = codes "block"

unfoldable pub read_action : Text → Result Action
read_action name =
    if text_eq name (codes "process") || text_eq name (codes "process_server")
    then ok process
    else (if text_eq name (codes "bypass")
        then ok bypass
        else (if text_eq name (codes "block") then ok block else err action))

unfoldable pub known_attrs : List (Text × Text) → List Text → Result (Unit {0})
unfolding member
known_attrs [] keys = ok tt
known_attrs ((key, value) ∷ attrs) keys = do
  throw_if (not (member key keys)) config_field
  known_attrs attrs keys

unfoldable pub known : Node → List Text → Result (Unit {0})
unfolding known_attrs attrs_of
known n keys = known_attrs (attrs_of n) keys

-- The loop of `join`, with what is joined so far.
unfoldable pub join_to : Text → List Text → Text
join_to out [] = out
join_to out (value ∷ values) = join_to (if is_empty out then value else out ++ b';' ∷ value) values

unfoldable pub join : List Text → Text
unfolding join_to
join values = join_to [] values

-- The loop of `split`, with the line that is read so far.
unfoldable pub split_from : Text → Text → List Text
split_from line [] = if is_empty line then [] else line ∷ []
split_from line (c ∷ text) =
    let next = split_from [] text in
    let longer = split_from (line ++ c ∷ []) text in
    if c == b';' then (if is_empty line then next else line ∷ next) else longer

unfoldable pub split : Text → List Text
unfolding split_from
split text = split_from [] text

unfoldable pub join_ids_to : Text → List ℕ → Text
join_ids_to out [] = out
join_ids_to out (id ∷ ids) =
    join_ids_to (if is_empty out then to_string id else out ++ b';' ∷ to_string id) ids

unfoldable pub join_ids : List ℕ → Text
unfolding join_ids_to
join_ids ids = join_ids_to [] ids

unfoldable pub read_numbers : List Text → Result (List ℕ)
unfolding read_number
read_numbers [] = ok []
read_numbers (value ∷ values) = do id ← read_number value; ids ← read_numbers values; ok (id ∷ ids)

unfoldable pub split_ids : Text → Result (List ℕ)
unfolding read_numbers split
split_ids text = read_numbers (split text)

unfoldable pub read_meta : Nodes → List (Text × Text) → Result (List (Text × Text))
unfolding name_of children_of has_no_nodes known attr
read_meta no_nodes result = ok result
read_meta (first_node item nodes) result = do
  throw_if (not (text_eq (name_of item) (codes "Meta")) || not (has_no_nodes (children_of item)))
      config_field
  known item (codes "key" ∷ codes "value" ∷ [])
  throw_if (is_taken (lookup (attr item (codes "key") []) result)) config_field
  read_meta nodes (put (attr item (codes "key") []) (attr item (codes "value") []) result)

unfoldable pub read_metadata : Node → Result (List (Text × Text))
unfolding read_meta children_of
read_metadata n = read_meta (children_of n) []

abbrev pub type_names : List (ℕ × Text)
type_names =
    (1, codes "A")
    ∷ (2, codes "NS")
    ∷ (5, codes "CNAME")
    ∷ (6, codes "SOA")
    ∷ (12, codes "PTR")
    ∷ (15, codes "MX")
    ∷ (16, codes "TXT")
    ∷ (28, codes "AAAA")
    ∷ (33, codes "SRV")
    ∷ (64, codes "SVCB")
    ∷ (65, codes "HTTPS")
    ∷ (255, codes "ANY")
    ∷ []

-- The `switch` over the types.
unfoldable pub lookup_type : ℕ → List (ℕ × Text) → Option Text
lookup_type type [] = none
lookup_type type ((t, name) ∷ rest) =
    let later = lookup_type type rest in if t == type then some name else later

unfoldable pub dns_type_name : ℕ → Text
unfolding to_string lookup_type
dns_type_name type = elim (lookup_type type type_names) [
  | some name ↦ name
  | none ↦ codes "TYPE" ++ to_string type
]
