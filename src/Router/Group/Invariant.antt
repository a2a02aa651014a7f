-- ===== src/Router/Group/Invariant.antt =====
-- NativeDNS.Core/src/router.cpp: what `append` keeps while it collects a group.
use mathlib.Core.List.{Memᴰ}
use mathlib.Core.List.Memᴰ
use native_dns.Prelude.{
  ℕ, ◌≤◌, true, false, ◌≡◌, ◌≢◌, refl, sym, ap, subst, ◌∙◌, ◌⊎◌, inl, inr, some, some-injective,
  List, [], ◌∷◌, ◌++◌, ◌==◌, Bool-cases, Result, ok, arith,
}
use native_dns.Model.{Server}
use native_dns.Rules.Validate.{Ids, has_id}
use native_dns.Rules.Validate.Unseen.{unseen}
use native_dns.Router.Group.{Gathered, find_fallback, added_to}

pub find_fallback-Mem :
    (id : ℕ) (servers : List Server) (s : Server)
    → find_fallback id servers ≡ some s
    → Memᴰ s servers × (s.id ≡ id)
unfolding find_fallback
find_fallback-Mem id [] s e = cc
find_fallback-Mem id (x ∷ servers) s e = elim (Bool-cases (x.id == id)) [
  | inl hit ↦
      let same : x ≡ s = some-injective (rw hit at e) in
      (Memᴰ.head (sym same), ground (arith, hit, ap (λ y. y.id) same))
  | inr miss ↦ let (m, h) = find_fallback-Mem id servers s (rw miss at e) in (Memᴰ.tail m, h)
]

-- No identifier stands twice.
abbrev pub Unique : List Server → Type 0
Unique [] = Unit
Unique (s ∷ rest) = ((t : Server) → Memᴰ t rest → t.id ≢ s.id) × Unique rest

Unique-append :
    (front : List Server) (s : Server)
    → Unique front
    → ((t : Server) → Memᴰ t front → t.id ≢ s.id)
    → Unique (front ++ s ∷ [])
Unique-append [] s u h = (λ t m. absurd (Memᴰ.not-nil m), tt)
Unique-append (x ∷ front) s (first, u) h = (
  (λ t m. elim (Memᴰ.append_cases front m) [
    | inl old ↦ first t old
    | inr new ↦ λ e. h x (Memᴰ.head refl) (sym e ∙ ap (λ y. y.id) (Memᴰ.eq_of_singleton new))
  ]),
  Unique-append front s u (λ t m. h t (Memᴰ.tail m)),
)

-- The candidates and the identifiers that are added belong together.
pub record IsGathered (servers : List Server) (primary : Server) (g : Gathered) : Type 0 where
  pub unique : Unique g.candidates
  pub known : (s : Server) → Memᴰ s g.candidates → (s ≡ primary) ⊎ Memᴰ s servers
  pub covered : (s : Server) → Memᴰ s g.candidates → has_id s.id g.added ≡ true
  pub listed :
      (id : ℕ) → has_id id g.added ≡ true → (s : Server) × Memᴰ s g.candidates × (s.id ≡ id)

-- Every fallback of `s` that names a server is added.
abbrev pub Follows : List Server → Ids → List ℕ → Type 0
Follows servers added ids =
    (id : ℕ)
    → Memᴰ id ids
    → (t : Server) → find_fallback id servers ≡ some t
    → has_id id added ≡ true

pub record IsGrown (servers : List Server) (g h : Gathered) : Type 0 where
  pub fewer : unseen h.added servers ≤ unseen g.added servers
  pub kept : (id : ℕ) → has_id id g.added ≡ true → has_id id h.added ≡ true
  pub stays : (s : Server) → Memᴰ s g.candidates → Memᴰ s h.candidates
  pub closed :
      (s : Server)
      → Memᴰ s h.candidates
      → Memᴰ s g.candidates ⊎ Follows servers h.added s.fallback_ids

pub IsGrown-refl : (servers : List Server) (g : Gathered) → IsGrown servers g g
IsGrown-refl servers g = record {
  fewer = omega arith;
  kept = λ id h. h;
  stays = λ s m. m;
  closed = λ s m. inl m;
}

pub IsGrown-trans :
    (servers : List Server) (f g h : Gathered)
    → IsGrown servers f g
    → IsGrown servers g h
    → IsGrown servers f h
IsGrown-trans servers f g h a b = record {
  fewer = omega (arith, a.fewer, b.fewer);
  kept = λ id e. b.kept id (a.kept id e);
  stays = λ s m. b.stays s (a.stays s m);
  closed = λ s m. elim (b.closed s m) [
    | inr follows ↦ inr follows
    | inl before ↦ elim (a.closed s before) [
      | inl earliest ↦ inl earliest
      | inr follows ↦ inr (λ id mem t found. b.kept id (follows id mem t found))
    ]
  ];
}

-- `server` is added, and with it all that it leads to.
abbrev pub Gathers : List Server → Server → Gathered → ℕ → Result Gathered → Type 0
Gathers servers primary g id r =
    (h : Gathered) × (r ≡ ok h)
    × IsGathered servers primary h
    × IsGrown servers g h
    × (has_id id h.added ≡ true)

abbrev pub GathersAll : List Server → Server → Gathered → List ℕ → Result Gathered → Type 0
GathersAll servers primary g ids r =
    (h : Gathered) × (r ≡ ok h)
    × IsGathered servers primary h
    × IsGrown servers g h
    × Follows servers h.added ids

pub has_id-cons : (id i : ℕ) (added : Ids) → has_id id added ≡ true → has_id id (i ∷ added) ≡ true
unfolding has_id
has_id-cons id i added h = ground (arith, h)

pub has_id-cons_self : (id : ℕ) (added : Ids) → has_id id (id ∷ added) ≡ true
unfolding has_id
has_id-cons_self id added = ground arith

has_id-cons-cases :
    (id i : ℕ) (added : Ids) → has_id id (i ∷ added) ≡ true → (i ≡ id) ⊎ (has_id id added ≡ true)
unfolding has_id
has_id-cons-cases id i added h = elim (Bool-cases (i == id)) [
  | inl hit ↦ inl (ground (arith, hit))
  | inr miss ↦ inr (ground (arith, miss, h))
]

pub added_to-IsGathered :
    (servers : List Server) (primary server : Server) (g : Gathered)
    → (server ≡ primary) ⊎ Memᴰ server servers
    → has_id server.id g.added ≡ false
    → IsGathered servers primary g
    → IsGathered servers primary (added_to server g)
unfolding added_to
added_to-IsGathered servers primary server g source new c = record {
  unique = Unique-append g.candidates server c.unique (λ t m e.
      let there = c.covered t m in let here = subst (λ i. has_id i g.added ≡ true) e there in cc);
  known = λ s m. elim (Memᴰ.append_cases g.candidates m) [
    | inl old ↦ c.known s old
    | inr last ↦
        subst (λ x. (x ≡ primary) ⊎ Memᴰ x servers) (sym (Memᴰ.eq_of_singleton last)) source
  ];
  covered = λ s m. elim (Memᴰ.append_cases g.candidates m) [
    | inl old ↦ has_id-cons s.id server.id g.added (c.covered s old)
    | inr last ↦
        subst (λ x. has_id x.id (server.id ∷ g.added) ≡ true) (sym (Memᴰ.eq_of_singleton last))
          (has_id-cons_self server.id g.added)
  ];
  listed = λ id h. elim (has_id-cons-cases id server.id g.added h) [
    | inl e ↦ (server, Memᴰ.append_right g.candidates (Memᴰ.head refl), e)
    | inr before ↦ let (s, m, e) = c.listed id before in (s, Memᴰ.append_left (server ∷ []) m, e)
  ];
}
