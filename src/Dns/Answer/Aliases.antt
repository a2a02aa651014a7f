-- ===== src/Dns/Answer/Aliases.antt =====
-- NativeDNS.Core/src/dns_packet.cpp: the walk along CNAME records in `parse_response`.
use native_dns.Prelude.{
  ℕ, zero, suc, ◌+◌, ◌≤◌, true, false, ◌≡◌, refl, inl, inr, none, some, List, [], ◌∷◌,
  if◌then◌else◌, length, All, Text, text_eq, text_eq_iff, lookup, member, Bool-cases, Option-cases,
  ok, arith,
}
use native_dns.Dns.Answer.{follow_from, follow_aliases}

abbrev Aliases : Type 0
Aliases = List (Text × Text)

abbrev Distinct : List Text → Type 0
Distinct [] = Unit
Distinct (x ∷ xs) = (member x xs ≡ false) × Distinct xs

abbrev HasAlias : Aliases → Text → Type 0
HasAlias m x = (v : Text) × (lookup x m ≡ some v)

without : Text → List Text → List Text
without j [] = []
without j (x ∷ xs) = let rest = without j xs in if text_eq j x then rest else x ∷ rest

member-without :
    (j x : Text) (xs : List Text) → member x xs ≡ false → member x (without j xs) ≡ false
unfolding member without
member-without j x [] h = refl
member-without j x (y ∷ xs) h = ground (arith, member-without j x xs)

Distinct-without : (j : Text) (xs : List Text) → Distinct xs → Distinct (without j xs)
unfolding without
Distinct-without j [] d = tt
Distinct-without j (x ∷ xs) d = ground (arith, Distinct-without j xs d.1, member-without j x xs d.0)

without-absent : (j : Text) (xs : List Text) → member j xs ≡ false → without j xs ≡ xs
unfolding member without
without-absent j [] h = refl
without-absent j (x ∷ xs) h = ground (arith, without-absent j xs, text_eq_iff j x, text_eq_iff x j)

length-without : (j : Text) (xs : List Text) → Distinct xs → length xs ≤ length (without j xs) + 1
unfolding without
length-without j [] d = omega arith
length-without j (x ∷ xs) d =
    ground (arith, length-without j xs d.1, without-absent j xs, text_eq_iff j x)

HasAlias-without :
    (j w : Text) (m : Aliases) (xs : List Text)
    → All (HasAlias ((j, w) ∷ m)) xs
    → All (HasAlias m) (without j xs)
unfolding without lookup
HasAlias-without j w m [] h = tt
HasAlias-without j w m (x ∷ xs) h = elim (Bool-cases (text_eq j x)) [
  | inl same ↦ rw same (HasAlias-without j w m xs h.1)
  | inr other ↦ rw other (rw other at h.0, HasAlias-without j w m xs h.1)
]

-- Distinct names that all have an alias are no more than the aliases.
length-Distinct :
    (m : Aliases) (xs : List Text) → Distinct xs → All (HasAlias m) xs → length xs ≤ length m
unfolding lookup
length-Distinct [] [] d h = omega arith
length-Distinct [] (x ∷ xs) d ((v, e), h) = cc
length-Distinct ((j, w) ∷ m) xs d h = omega (
  arith,
  length-without j xs d,
  length-Distinct m (without j xs) (Distinct-without j xs d) (HasAlias-without j w m xs h),
)

-- The walk stands at `current`, has left the names `seen`, and `n` rounds are left.
record Walk (m : Aliases) (n : ℕ) (current : Text) (seen : List Text) : Type 0 where
  rounds : n + length seen ≡ length m + 1
  distinct : Distinct (current ∷ seen)
  left : All (HasAlias m) seen

-- Where the walk may stop.
abbrev EndsWithin : Aliases → List Text → Type 0
EndsWithin m reach = (last : Text) × (member last reach ≡ true) × (lookup last m ≡ none)

member-cons_self : (x : Text) (xs : List Text) → member x (x ∷ xs) ≡ true
unfolding member
member-cons_self x xs = rw ((text_eq_iff x x).1 refl)

follow_aliases-Walk :
    (n : ℕ) (m : Aliases) (current : Text) (seen reach : List Text)
    → Walk m n current seen
    → follow_aliases n m (current ∷ seen) current ≡ ok reach
    → EndsWithin m reach
unfolding follow_aliases follow_from
follow_aliases-Walk zero m current seen reach w e =
    absurd (omega (arith, w.rounds, length-Distinct m seen w.distinct.1 w.left))
follow_aliases-Walk (suc n) m current seen reach w e = elim (Option-cases (lookup current m)) [
  | inl end ↦
      let same : current ∷ seen ≡ reach = ground (arith, rw end at e) in
      (current, rw (← same) (member-cons_self current seen), end)
  | inr (target, more) ↦ elim (Bool-cases (member target (current ∷ seen))) [
    | inl cycle ↦ absurd (cc (rw (more, cycle) at e))
    | inr fresh ↦
        follow_aliases-Walk n m target (current ∷ seen) reach
          (record {
            rounds = omega (arith, w.rounds);
            distinct = (fresh, w.distinct);
            left = ((target, more), w.left);
          })
          (rw (more, fresh) at e)
  ]
]

-- The walk's bound never cuts it short: a response that is accepted has a name without alias among
-- those that the question reaches, so every chain was followed to its end.
pub follow_aliases-EndsWithin :
    (m : List (Text × Text)) (start : Text) (reach : List Text)
    → follow_aliases (length m + 1) m (start ∷ []) start ≡ ok reach
    → (last : Text) × (member last reach ≡ true) × (lookup last m ≡ none)
unfolding member
follow_aliases-EndsWithin m start reach e =
    follow_aliases-Walk (length m + 1) m start [] reach
      (record { rounds = omega arith; distinct = (refl, tt); left = tt }) e
