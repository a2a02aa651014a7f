-- ===== src/Config/Parser.antt =====
-- NativeDNS.Core/src/config.cpp: `XmlParser`. A position in the text is the text behind it; the depth that
-- is left takes the place of the depth. Loops are on fuel for the text.
pub mod Lengths
pub mod Ends
use native_dns.Prelude.{
  ℕ, zero, suc, ◌+◌, Bool, true, false, not, ◌&&◌, ◌||◌, Option, none, some, List, [], ◌∷◌, ◌++◌,
  ltb, leb, ◌==◌, if◌then◌else◌, between, is_empty, length, drop, Text, codes, text_eq, lookup, put,
  Code, other, Result, ok, err, fault, ◌>>=◌, ◌>>◌, throw_if,
}
use native_dns.Rules.Validate.{starts_with}
use native_dns.Config.Xml.{xml, quoted}

abbrev pub xml_limit : Code
xml_limit = other (codes "XML_LIMIT")

abbrev pub config_io : Code
config_io = other (codes "CONFIG_IO")

mutual
  pub data Node : Type 0 where
    node : Text → List (Text × Text) → Nodes → Node

  pub data Nodes : Type 0 where
    no_nodes : Nodes
    first_node : Node → Nodes → Nodes

unfoldable pub push_back : Nodes → Node → Nodes
push_back no_nodes child = first_node child no_nodes
push_back (first_node n nodes) child = first_node n (push_back nodes child)

-- `std::isspace` and `std::isalnum` of the "C" locale.
unfoldable pub is_white : ℕ → Bool
is_white c = c == 32 || between 9 13 c

unfoldable pub is_name_byte : ℕ → Bool
is_name_byte c =
    between b'0' b'9' c
    || between b'A' b'Z' c
    || between b'a' b'z' c
    || c == b'_'
    || c == b'-'
    || c == b'.'

unfoldable pub skip_ws : Text → Text
unfolding is_white
skip_ws [] = []
skip_ws (c ∷ text) = let rest = skip_ws text in if is_white c then rest else c ∷ text

unfoldable pub skip_until : Text → Text → Result Text
skip_until token [] = if is_empty token then ok [] else err xml
skip_until token (c ∷ text) =
    let later = skip_until token text in
    if starts_with token (c ∷ text) then ok (drop (length token) (c ∷ text)) else later

unfoldable pub skip_misc : ℕ → Text → Result Text
unfolding skip_ws skip_until
skip_misc zero text = fault
skip_misc (suc n) text =
    let rest = skip_ws text in
    let instruction = skip_until (codes "?>") (drop 2 rest) >>= skip_misc n in
    let comment = skip_until (codes "-->") (drop 4 rest) >>= skip_misc n in
    if starts_with (codes "<?") rest
    then instruction
    else (if starts_with (codes "<!--") rest
        then comment
        else (if starts_with (codes "<!DOCTYPE") rest || starts_with (codes "<!ENTITY") rest
            then err xml
            else ok rest))

unfoldable pub split_name : Text → Text × Text
unfolding is_name_byte
split_name [] = ([], [])
split_name (c ∷ text) =
    let (front, back) = split_name text in
    if is_name_byte c then (c ∷ front, back) else ([], c ∷ text)

unfoldable pub read_name : Text → Result (Text × Text)
unfolding split_name
read_name text =
    let (front, back) = split_name text in if is_empty front then err xml else ok (front, back)

-- `pos_ < text_.size() && text_[pos_] == c`
unfoldable pub stands : ℕ → Text → Bool
stands c [] = false
stands c (b ∷ text) = b == c

-- One attribute: its name, its value and what follows.
unfoldable pub read_attribute : Text → Result (Text × Text × Text)
unfolding read_name skip_ws stands
read_attribute text = do
  (key, behind) ← read_name text
  let equals = skip_ws behind
  throw_if (not (stands b'=' equals)) xml
  (value, rest) ← quoted (skip_ws (drop 1 equals))
  ok (key, value, rest)

unfoldable pub is_taken : Option Text → Bool
is_taken none = false
is_taken (some value) = true

-- The loop over the attributes: whether the element goes on, its attributes and what follows.
unfoldable pub read_attributes :
    ℕ → List (Text × Text) → Text → Result (Bool × List (Text × Text) × Text)
unfolding read_attribute skip_ws stands is_taken
read_attributes zero attrs text = fault
read_attributes (suc n) attrs text =
    let at = skip_ws text in
    let more = read_attribute at >>= λ (key, value, rest).
    throw_if (is_taken (lookup key attrs)) xml >> read_attributes n (put key value attrs) rest in
    if starts_with (codes "/>") at
    then ok (false, attrs, drop 2 at)
    else (if stands b'>' at then ok (true, attrs, drop 1 at) else more)

unfoldable pub read_close : Text → Text → Result Text
unfolding read_name skip_ws stands
read_close opened text = do
  (closed, behind) ← read_name text
  let at = skip_ws behind
  throw_if (not (stands b'>' at)) xml
  throw_if (not (text_eq closed opened)) xml
  ok (drop 1 at)

-- The text up to the next element is white space.
unfoldable pub skip_content : Text → Result Text
unfolding is_white
skip_content [] = err xml
skip_content (c ∷ text) =
    let later = throw_if (not (is_white c)) xml >> skip_content text in
    if c == b'<' then ok (c ∷ text) else later

-- A node, the number of nodes so far and what follows.
abbrev pub Read : Type 0
Read = Node × ℕ × Text

-- The loop over the children.
unfoldable pub read_content :
    (ℕ → Text → Result Read) → Text → List (Text × Text) → ℕ → Nodes → ℕ → Text → Result Read
unfolding read_close skip_content skip_until skip_ws stands push_back
read_content element opened attrs zero children nodes text = fault
read_content element opened attrs (suc n) children nodes text =
    let at = skip_ws text in
    let again = read_content element opened attrs n in
    let closed =
      read_close opened (drop 2 at) >>= λ rest. ok (node opened attrs children, nodes, rest) in
    let comment = skip_until (codes "-->") (drop 4 at) >>= again children nodes in
    let nested =
      element nodes at >>= λ (child, count, rest). again (push_back children child) count rest in
    let blank = skip_content at >>= again children nodes in
    if starts_with (codes "</") at
    then closed
    else (if starts_with (codes "<!--") at
        then comment
        else (if starts_with (codes "<![CDATA[") at
            then err xml
            else (if stands b'<' at then nested else blank)))

unfoldable pub finish_element :
    (ℕ → Text → Result Read) → Text → ℕ → Bool × List (Text × Text) × Text → Result Read
unfolding read_content
finish_element element opened nodes (goes_on, attrs, rest) =
    let inside = read_content element opened attrs (length rest + 1) no_nodes nodes rest in
    if goes_on then inside else ok (node opened attrs no_nodes, nodes, rest)

-- `depth` more levels are allowed.
unfoldable pub parse_element : ℕ → ℕ → Text → Result Read
unfolding finish_element read_attributes read_name skip_ws stands
parse_element zero nodes text = err xml_limit
parse_element (suc depth) nodes text = do
  throw_if (ltb 200000 (nodes + 1)) xml_limit
  let at = skip_ws text
  throw_if (not (stands b'<' at) || starts_with (codes "</") at) xml
  let inside = drop 1 at
  throw_if (stands b'!' inside || stands b'?' inside) xml
  (opened, behind) ← read_name inside
  head ← read_attributes (length behind + 1) [] behind
  finish_element (parse_element depth) opened (nodes + 1) head

abbrev pub max_depth : ℕ
max_depth = 16

unfoldable pub without_mark : Text → Text
without_mark text = if starts_with (239 ∷ 187 ∷ 191 ∷ []) text then drop 3 text else text

unfoldable pub parse : Text → Result Node
unfolding skip_misc parse_element without_mark skip_ws
parse text = do
  throw_if (ltb 4194304 (length text)) config_io
  let marked = without_mark text
  start ← skip_misc (length marked + 1) marked
  (root, nodes, rest) ← parse_element (max_depth + 1) 0 start
  behind ← skip_misc (length rest + 1) rest
  throw_if (not (is_empty (skip_ws behind))) xml
  ok root
