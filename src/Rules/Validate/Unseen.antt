-- ===== src/Rules/Validate/Unseen.antt =====
-- NativeDNS.Core/src/rules.cpp and NativeDNS.Core/src/router.cpp: how many servers a walk over fallbacks
-- has still to come to.
use mathlib.Core.List.{Memᴰ}
use mathlib.Core.List.Memᴰ
use native_dns.Prelude.{
  ℕ, suc, ◌≤◌, ◌<◌, false, ◌≡◌, ap, List, [], ◌∷◌, if◌then◌else◌, length, arith,
}
use native_dns.Model.{Server}
use native_dns.Rules.Validate.{Ids, has_id}

-- The servers that are not in a set of identifiers.
unfoldable pub unseen : Ids → List Server → ℕ
unseen added [] = 0
unseen added (s ∷ servers) =
    if has_id s.id added then unseen added servers else suc (unseen added servers)

pub unseen-cons_le :
    (id : ℕ) (added : Ids) (servers : List Server)
    → unseen (id ∷ added) servers ≤ unseen added servers
unfolding unseen has_id
unseen-cons_le id added [] = omega arith
unseen-cons_le id added (s ∷ servers) = ground (arith, unseen-cons_le id added servers)

pub unseen-cons_lt :
    (s : Server) (added : Ids) (servers : List Server)
    → Memᴰ s servers
    → has_id s.id added ≡ false
    → unseen (s.id ∷ added) servers < unseen added servers
unfolding unseen has_id
unseen-cons_lt s added [] m h = absurd (Memᴰ.not-nil m)
unseen-cons_lt s added (x ∷ servers) (Memᴰ.head e) h =
    ground (arith, unseen-cons_le s.id added servers, e, ap (λ y. y.id) e, h)
unseen-cons_lt s added (x ∷ servers) (Memᴰ.tail m) h =
    ground (arith, unseen-cons_lt s added servers m h)

pub unseen_le : (added : Ids) (servers : List Server) → unseen added servers ≤ length servers
unfolding unseen
unseen_le added [] = omega arith
unseen_le added (s ∷ servers) = ground (arith, unseen_le added servers)
