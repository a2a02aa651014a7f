-- ===== src/Router/Group/Candidates.antt =====
-- NativeDNS.Core/src/router.cpp: the servers that `append` collects.
use mathlib.Core.List.{Memᴰ}
use mathlib.Core.List.Memᴰ
use native_dns.Prelude.{
  ℕ, zero, suc, ◌<◌, true, false, not, ◌≡◌, refl, sym, subst, ◌∙◌, ◌⊎◌, inl, inr, Option, none,
  some, List, [], ◌∷◌, if_cases, erase_if, length, Result, ok, arith,
}
use native_dns.Model.{Server}
use native_dns.Rules.Validate.{has_id}
use native_dns.Rules.Validate.Unseen.{unseen, unseen-cons_le, unseen-cons_lt, unseen_le}
use native_dns.Router.Group.Invariant.{
  find_fallback-Mem, Unique, IsGathered, Follows, IsGrown, IsGrown-refl, IsGrown-trans, Gathers,
  GathersAll, has_id-cons, has_id-cons_self, added_to-IsGathered,
}
use native_dns.Router.Group.{
  Gathered, nothing_gathered, find_fallback, append_found, append_fallbacks, added_to, append,
  gather,
}

append_fallbacks-GathersAll :
    (servers : List Server) (primary : Server) (next : Server → Gathered → Result Gathered) (n : ℕ)
    → ((s : Server) (g : Gathered)
        → Memᴰ s servers
        → unseen g.added servers < n
        → IsGathered servers primary g
        → Gathers servers primary g s.id (next s g))
    → (ids : List ℕ) (g : Gathered) → unseen g.added servers < n
    → IsGathered servers primary g
    → GathersAll servers primary g ids (append_fallbacks next servers ids g)
unfolding append_fallbacks
append_fallbacks-GathersAll servers primary next n step [] g small c =
    (g, refl, c, IsGrown-refl servers g, λ id m t found. absurd (Memᴰ.not-nil m))
append_fallbacks-GathersAll servers primary next n step (id ∷ ids) g small c =
    let (h, same, ch, grown, there) = append_found-Gathers (find_fallback id servers) refl in
    let (k, same', ck, grown', follows) =
      append_fallbacks-GathersAll servers primary next n step ids h
        (omega (arith, grown.fewer, small)) ch in
    rw same (
      k,
      same',
      ck,
      IsGrown-trans servers g h k grown grown',
      λ i m t found. elim (Memᴰ.cases_cons m) [
        | inl here ↦ grown'.kept i (
            subst (λ j. has_id j h.added ≡ true) (sym here)
              (there t (subst (λ j. find_fallback j servers ≡ some t) here found)))
        | inr later ↦ follows i later t found
      ],
    )
  where
    append_found-Gathers :
        (o : Option Server)
        → find_fallback id servers ≡ o
        → (h : Gathered) × (append_found next o g ≡ ok h)
          × IsGathered servers primary h
          × IsGrown servers g h
          × ((t : Server) → find_fallback id servers ≡ some t → has_id id h.added ≡ true)
    append_found-Gathers none e =
        (g, refl, c, IsGrown-refl servers g, λ t found. let clash = sym e ∙ found in cc)
    append_found-Gathers (some s) e =
        let (m, named) = find_fallback-Mem id servers s e in
        let (h, same, ch, grown, there) = step s g m small c in
        (h, same, ch, grown, λ t found. subst (λ j. has_id j h.added ≡ true) named there)

-- What a new server adds itself; its fallbacks come next.
new-IsGrown :
    (servers : List Server) (server : Server) (g h : Gathered)
    → IsGrown servers (added_to server g) h
    → Follows servers h.added server.fallback_ids
    → IsGrown servers g h
unfolding added_to
new-IsGrown servers server g h grown follows = record {
  fewer = omega (arith, grown.fewer, unseen-cons_le server.id g.added servers);
  kept = λ id e. grown.kept id (has_id-cons id server.id g.added e);
  stays = λ s m. grown.stays s (Memᴰ.append_left (server ∷ []) m);
  closed = λ s m. elim (grown.closed s m) [
    | inr follows ↦ inr follows
    | inl before ↦ elim (Memᴰ.append_cases g.candidates before) [
      | inl old ↦ inl old
      | inr last ↦ inr (
          subst (λ x. Follows servers h.added x.fallback_ids) (sym (Memᴰ.eq_of_singleton last))
            follows)
    ]
  ];
}

added_to-has_id : (s : Server) (g : Gathered) → has_id s.id (added_to s g).added ≡ true
unfolding added_to
added_to-has_id s g = has_id-cons_self s.id g.added

added_to-unseen :
    (servers : List Server) (s : Server) (g : Gathered)
    → Memᴰ s servers
    → has_id s.id g.added ≡ false
    → unseen (added_to s g).added servers < unseen g.added servers
unfolding added_to
added_to-unseen servers s g m fresh = unseen-cons_lt s g.added servers m fresh

append-new :
    (servers : List Server) (primary server : Server) (g : Gathered) (r : Result Gathered)
    → (server ≡ primary) ⊎ Memᴰ server servers
    → GathersAll servers primary (added_to server g) server.fallback_ids r
    → Gathers servers primary g server.id r
append-new servers primary server g r source (h, same, c, grown, follows) = (
  h,
  same,
  c,
  new-IsGrown servers server g h grown follows,
  grown.kept server.id (added_to-has_id server g),
)

-- A server of the configuration, with fuel for all that are not added.
append-Gathers :
    (servers : List Server) (primary : Server) (depth : ℕ) (server : Server) (g : Gathered)
    → Memᴰ server servers
    → unseen g.added servers < depth
    → IsGathered servers primary g
    → Gathers servers primary g server.id (append depth servers server g)
unfolding append
append-Gathers servers primary zero server g m small c = absurd (omega (arith, small))
append-Gathers servers primary (suc depth) server g m small c =
    if_cases (Gathers servers primary g server.id) (has_id server.id g.added)
      (λ seen. (g, refl, c, IsGrown-refl servers g, seen))
      (λ fresh. append-new servers primary server g _ (inr m) (
        append_fallbacks-GathersAll servers primary (append depth servers) depth
          (append-Gathers servers primary depth) server.fallback_ids (added_to server g)
          (omega (arith, added_to-unseen servers server g m fresh, small))
          (added_to-IsGathered servers primary server g (inr m) fresh c)))

nothing-IsGathered :
    (servers : List Server) (primary : Server) → IsGathered servers primary nothing_gathered
unfolding has_id
nothing-IsGathered servers primary = record {
  unique = tt;
  known = λ s m. absurd (Memᴰ.not-nil m);
  covered = λ s m. absurd (Memᴰ.not-nil m);
  listed = λ id h. cc;
}

-- The primary, which comes first.
append-primary :
    (servers : List Server) (primary : Server)
    → Gathers servers primary nothing_gathered primary.id
        (append (suc (suc (length servers))) servers primary nothing_gathered)
unfolding append has_id
append-primary servers primary = append-new servers primary primary nothing_gathered _ (inl refl) (
    append_fallbacks-GathersAll servers primary (append (suc (length servers)) servers)
      (suc (length servers)) (append-Gathers servers primary (suc (length servers)))
      primary.fallback_ids (added_to primary nothing_gathered)
      (omega (arith, unseen_le (added_to primary nothing_gathered).added servers))
      (added_to-IsGathered servers primary primary nothing_gathered (inl refl) refl
        (nothing-IsGathered servers primary)))

-- The candidates of a group: before the disabled ones are dropped, `all`.
pub record IsGroup (servers : List Server) (primary : Server) (all : List Server) : Type 0 where
  pub unique : Unique all
  pub known : (s : Server) → Memᴰ s all → (s ≡ primary) ⊎ Memᴰ s servers
  pub first : (s : Server) × Memᴰ s all × (s.id ≡ primary.id)
  pub closed :
      (s : Server) (id : ℕ)
      → Memᴰ s all
      → Memᴰ id s.fallback_ids
      → (t : Server) → find_fallback id servers ≡ some t
      → (u : Server) × Memᴰ u all × (u.id ≡ id)

-- Collecting the group of a primary always ends. What is collected has no identifier twice, holds the
-- primary's identifier, and nothing but the primary and servers of the configuration; with a server it
-- holds all its fallbacks that the configuration knows. The candidates are those that are enabled.
pub gather-IsGroup :
    (servers : List Server) (primary : Server)
    → (all : List Server) × (gather servers primary
        ≡ ok (erase_if (λ server. not server.enabled) all))
      × IsGroup servers primary all
unfolding gather
gather-IsGroup servers primary =
    let (h, same, c, grown, there) = append-primary servers primary in
    rw same (
      h.candidates,
      refl,
      record {
        unique = c.unique;
        known = c.known;
        first = c.listed primary.id there;
        closed = λ s id m named t found. elim (grown.closed s m) [
          | inl before ↦ absurd (Memᴰ.not-nil before)
          | inr follows ↦ c.listed id (follows id named t found)
        ];
      },
    )
