-- ===== src/Rules/Editor.antt =====
-- NativeDNS.Core/src/rules.cpp: `ConfigEditor`. The editor is its configuration; an operation
-- gives the next one or throws, and then the editor keeps what it had.
pub mod Candidates
pub mod Safety
use native_dns.Prelude.{
  ℕ, zero, suc, Bool, true, false, not, ◌&&◌, ◌||◌, Option, none, some, List, [], ◌∷◌, ◌++◌, ◌==◌,
  if◌then◌else◌, is_empty, Text, codes, rule_id, default_rule, order, server_id, Result, ok, err,
  fault, ◌>>=◌, ◌>>◌, throw_if,
}
use native_dns.Model.{Rule, Server, Config}
use native_dns.Rules.Validate.{same_bool, validate}

-- What `find_if` finds: the element, what precedes it with the nearest first, and what follows.
pub record Place (A : Type 0) : Type 0 where
  pub front : List A
  pub item : A
  pub behind : List A

unfoldable pub find_place : {A : Type 0} → (A → Bool) → List A → List A → Option (Place A)
find_place test front [] = none
find_place test front (x ∷ xs) =
    let rest = find_place test (x ∷ front) xs in
    if test x then some (record { front = front; item = x; behind = xs }) else rest

-- The list with `xs` behind what precedes a place.
unfoldable pub rewind : {A : Type 0} → List A → List A → List A
rewind [] xs = xs
rewind (x ∷ front) xs = rewind front (x ∷ xs)

unfoldable pub find_rule : ℕ → List Rule → Option (Place Rule)
unfolding find_place
find_rule id rules = find_place (λ r. r.id == id) [] rules

unfoldable pub find_server : ℕ → List Server → Option (Place Server)
unfolding find_place
find_server id servers = find_place (λ s. s.id == id) [] servers

-- `insert(end() - 1, rule)`
unfoldable pub insert_before_last : Rule → List Rule → Result (List Rule)
insert_before_last rule [] = fault
insert_before_last rule (r ∷ []) = ok (rule ∷ r ∷ [])
insert_before_last rule (r ∷ s ∷ rules) = do
  rest ← insert_before_last rule (s ∷ rules)
  ok (r ∷ rest)

unfoldable pub replace_rule : Rule → Option (Place Rule) → Result (List Rule)
unfolding rewind
replace_rule rule none = err rule_id
replace_rule rule (some place) = do
  throw_if (not (same_bool place.item.is_default rule.is_default)) rule_id
  ok (rewind place.front (rule ∷ place.behind))

unfoldable pub erase_rule : Option (Place Rule) → Result (List Rule)
unfolding rewind
erase_rule none = err default_rule
erase_rule (some place) = do
  throw_if place.item.is_default default_rule
  ok (rewind place.front place.behind)

-- `iter_swap(it, it - 1)`; the first rule cannot move up.
unfoldable pub swap_up : Rule → List Rule → List Rule → Result (List Rule)
unfolding rewind
swap_up rule [] behind = err order
swap_up rule (x ∷ front) behind = ok (rewind front (rule ∷ x ∷ behind))

-- `iter_swap(it, it + 1)`; `it + 1` is read without a check that it is inside.
unfoldable pub swap_down : Rule → List Rule → List Rule → Result (List Rule)
unfolding rewind
swap_down rule front [] = fault
swap_down rule front (x ∷ behind) = do
  throw_if x.is_default order
  ok (rewind front (x ∷ rule ∷ behind))

-- A direction of the machine's `int`.
pub data ℤ : Type 0 where
  pos negsuc : ℕ → ℤ

unfoldable pub swap_rule : ℤ → Place Rule → Result (List Rule)
unfolding swap_up swap_down
swap_rule (negsuc zero) place = do
  throw_if place.item.is_default order
  swap_up place.item place.front place.behind
swap_rule (pos (suc zero)) place = do
  throw_if place.item.is_default order
  swap_down place.item place.front place.behind
swap_rule _ place = err order

unfoldable pub move_place : ℤ → Option (Place Rule) → Result (List Rule)
unfolding swap_rule
move_place direction none = err order
move_place direction (some place) = swap_rule direction place

unfoldable pub copy_of : ℕ → Option (Place Rule) → Result Rule
copy_of id none = err rule_id
copy_of id (some place) =
    ok (record (place.item) {
      id = id;
      is_default = false;
      name = place.item.name ++ codes " (copy)";
    })

unfoldable pub replace_server : Server → Option (Place Server) → Result (List Server)
unfolding rewind
replace_server server none = err server_id
replace_server server (some place) = ok (rewind place.front (server ∷ place.behind))

-- `erase_if`
unfoldable pub erase_server : ℕ → List Server → List Server
erase_server id [] = []
erase_server id (s ∷ servers) =
    let rest = erase_server id servers in if s.id == id then rest else s ∷ rest

unfoldable pub has_server : ℕ → List Server → Bool
has_server id [] = false
has_server id (s ∷ servers) = if s.id == id then true else has_server id servers

pub data Edit : Type 0 where
  add_rule update_rule : Rule → Edit
  remove_rule : ℕ → Edit
  move_rule : ℕ → ℤ → Edit
  clone_rule : ℕ → ℕ → Edit
  add_server update_server : Server → Edit
  remove_server : ℕ → Edit

-- The candidate that an operation builds.
unfoldable pub candidate : Edit → Config → Result Config
candidate (add_rule rule) config = do
  rules ← insert_before_last rule config.rules
  ok (record config { rules = rules })
candidate (update_rule rule) config = do
  rules ← replace_rule rule (find_rule rule.id config.rules)
  ok (record config { rules = rules })
candidate (remove_rule id) config = do
  rules ← erase_rule (find_rule id config.rules)
  ok (record config { rules = rules })
candidate (move_rule id direction) config = do
  rules ← move_place direction (find_rule id config.rules)
  ok (record config { rules = rules })
candidate (clone_rule source id) config = do
  rule ← copy_of id (find_rule source config.rules)
  rules ← insert_before_last rule config.rules
  ok (record config { rules = rules })
candidate (add_server server) config =
    ok (record config { servers = config.servers ++ server ∷ [] })
candidate (update_server server) config = do
  servers ← replace_server server (find_server server.id config.servers)
  ok (record config { servers = servers })
candidate (remove_server id) config = do
  throw_if (not (has_server id config.servers)) server_id
  ok (record config { servers = erase_server id config.servers })

module _ (pton4 pton6 : Text → Option (List ℕ)) where
  -- `commit`: the candidate replaces the configuration only when it is valid.
  unfoldable pub commit : Config → Result Config
  commit next = do validate pton4 pton6 next; ok next

  unfoldable pub edit : Edit → Config → Result Config
  unfolding commit
  edit e config = candidate e config >>= commit

  -- An editor after an operation: one that throws leaves it as it was.
  unfoldable pub after_edit : Config → Result Config → Result Config
  after_edit config (ok next) = ok next
  after_edit config (err code) = ok config
  after_edit config fault = fault

  unfoldable pub run_edits : List Edit → Config → Result Config
  unfolding after_edit
  run_edits [] config = ok config
  run_edits (e ∷ edits) config = after_edit config (edit e config) >>= run_edits edits
