-- ===== src/Rules/Match/Correct.antt =====
-- NativeDNS.Core/src/rules.cpp: `host_matches` decides what a pattern means.
use native_dns.Prelude.{
  ℕ, zero, suc, ◌+◌, ◌*◌, ◌≤◌, ◌<◌, Bool, true, false, ◌≡◌, ◌≢◌, ◌↔◌, refl, sym, ◌∙◌, none, some,
  [], ◌∷◌, ◌==◌, ==_iff, if_cases, length, All, Text, Result, ok, err, fault, arith,
}
use mathlib.Core.Bool.{false≢true}
use native_dns.Rules.Match.{Attempt, only_stars, fits, go_back, match_loop, host_matches}

-- A pattern describes a host: `?` is any byte, `*` any run of bytes, any other byte itself.
pub data Matches : Text → Text → Type 0 where
  both_end : Matches [] []
  one : {c x : ℕ} {h p : Text} → x ≢ b'*' → fits x c ≡ true → Matches h p → Matches (c ∷ h) (x ∷ p)
  skip : {x : ℕ} {h p : Text} → x ≡ b'*' → Matches h p → Matches h (x ∷ p)
  take : {c x : ℕ} {h p : Text} → x ≡ b'*' → Matches h (x ∷ p) → Matches (c ∷ h) (x ∷ p)

module _ {x : ℕ} {p : Text} where
  one_inv :
      {c : ℕ} {h : Text} → x ≢ b'*' → Matches (c ∷ h) (x ∷ p) → (fits x c ≡ true) × Matches h p
  one_inv n (one _ f d) = (f, d)
  one_inv n (skip e _) = absurd (n e)
  one_inv n (take e _) = absurd (n e)

  end_inv : Matches [] (x ∷ p) → (x ≡ b'*') × Matches [] p
  end_inv (skip e d) = (e, d)

  -- A star that cannot stop here takes a byte.
  forced :
      {c : ℕ} {h : Text}
      → x ≡ b'*'
      → Matches (c ∷ h) (x ∷ p)
      → ¬ Matches (c ∷ h) p
      → Matches h (x ∷ p)
  forced e (one n _ _) no_end = absurd (n e)
  forced e (skip _ d) no_end = absurd (no_end d)
  forced e (take _ d) no_end = d

  -- Two stars are one.
  merged : {y : ℕ} {h : Text} → x ≡ b'*' → y ≡ b'*' → Matches h (y ∷ x ∷ p) → Matches h (x ∷ p)
  merged e f (one n _ _) = absurd (n f)
  merged e f (skip _ d) = d
  merged e f (take _ d) = take e (merged e f d)

  -- Behind a star a single byte of the pattern can be dropped with the first byte of the host.
  shifted :
      {y c : ℕ} (h : Text) → y ≡ b'*' → x ≢ b'*' → Matches (c ∷ h) (y ∷ x ∷ p) → Matches h (y ∷ p)
  shifted h f n (one m _ _) = absurd (m f)
  shifted h f n (skip _ d) = skip f (one_inv n d).1
  shifted [] f n (take _ (skip _ d)) = absurd (n (end_inv d).0)
  shifted (c ∷ h) f n (take _ d) = take f (shifted h f n d)

only_stars_iff : (p : Text) → (only_stars p ≡ true) ↔ Matches [] p
unfolding only_stars
only_stars_iff [] = (λ _. both_end, λ _. refl)
only_stars_iff (x ∷ p) = (
  λ h. skip (ground arith) ((only_stars_iff p).0 (ground arith)),
  λ d.
      let (e, rest) = end_inv d in
      let tail = (only_stars_iff p).1 rest in let star = (==_iff x b'*').1 e in rw star tail,
)

-- The run ended, with the right answer to the question `G`.
abbrev pub Answers : Type 0 → Result Bool → Type 0
Answers G (ok true) = G
Answers G (ok false) = ¬ G
Answers G (err _) = ⊥
Answers G fault = ⊥

-- A host has no star, so that a star of a pattern is never a byte of the host.
abbrev pub IsStarless : Text → Type 0
IsStarless h = All (λ c. c ≢ b'*') h

ok-Answers : (G : Type 0) (b : Bool) → (b ≡ true) ↔ G → Answers G (ok b)
ok-Answers G true e = e.0 refl
ok-Answers G false e = λ g. false≢true (e.1 g)

Answers-iff :
    (G : Type 0) (r : Result Bool) → Answers G r → ((r ≡ ok true) ↔ G) × ((r ≡ ok false) ↔ (¬ G))
Answers-iff G (ok true) h = ((λ _. h, λ _. refl), (λ e. cc, λ n. absurd (n h)))
Answers-iff G (ok false) h = ((λ e. cc, λ g. absurd (h g)), (λ _. h, λ _. refl))
Answers-iff G (err c) h = absurd h
Answers-iff G fault h = absurd h

fits-starless : (x c : ℕ) → c ≢ b'*' → fits x c ≡ true → x ≢ b'*'
unfolding fits
fits-starless x c n e = ground arith

-- The loop at the question `G`; no saved pattern is longer than `k`.
module _ (G : Type 0) (k : ℕ) where
  -- What a saved attempt is worth: the question is whether the star matches where it stands, and
  -- an attempt that would succeed from there succeeds from here.
  abbrev Kept : ℕ → Text → Text → Attempt → Type 0
  Kept m h p none = G → Matches h p
  Kept m h p (some (behind, retry)) =
      (G → (x : ℕ) → x ≡ b'*' → Matches retry (x ∷ behind))
      × ((x : ℕ) → x ≡ b'*' → Matches retry (x ∷ behind) → G)
      × (Matches retry behind → Matches h p)
      × IsStarless retry
      × (length h ≤ length retry)
      × (length retry ≤ m)
      × (length behind ≤ k)

  -- `m` bounds the part of the host that is left to attempts, and pays for the fuel.
  record LoopInv (f m : ℕ) (h p : Text) (star : Attempt) : Type 0 where
    enough : Matches h p → G
    within : G → Matches h (b'*' ∷ p)
    kept : Kept m h p star
    starless : IsStarless h
    host_bound : length h ≤ m
    pattern_bound : length p ≤ k
    fuel : m * (k + 1) + length p < f

  LoopInv-one :
      {f m c x : ℕ} {h p : Text} (star : Attempt)
      → LoopInv (suc f) m (c ∷ h) (x ∷ p) star
      → x ≢ b'*'
      → fits x c ≡ true
      → LoopInv f m h p star
  LoopInv-one {f} {m} {c} {x} {h} {p} star i n e = record {
    enough = λ d. i.enough (one n e d);
    within = λ g. shifted h refl n (i.within g);
    kept = kept-one star i.kept;
    starless = i.starless.1;
    host_bound = omega (arith, i.host_bound);
    pattern_bound = omega (arith, i.pattern_bound);
    fuel = omega (arith, i.fuel);
  }
    where
      kept-one : (star : Attempt) → Kept m (c ∷ h) (x ∷ p) star → Kept m h p star
      kept-one none k' = λ g. (one_inv n (k' g)).1
      kept-one (some (behind, retry)) (a, b, d, l, s, t, u) =
          (a, b, λ r. (one_inv n (d r)).1, l, omega arith, t, u)

  LoopInv-star :
      {f m c x : ℕ} {h p : Text} (star : Attempt)
      → LoopInv (suc f) m (c ∷ h) (x ∷ p) star
      → x ≡ b'*'
      → LoopInv f m (c ∷ h) p (some (p, c ∷ h))
  LoopInv-star {f} {m} {c} {x} {h} {p} star i e = record {
    enough = λ d. i.enough (skip e d);
    within = λ g. rw e at (merged e refl (i.within g));
    kept = (
      λ g y ye. rw (ye, ← e) (merged e refl (i.within g)),
      λ y ye d. i.enough (rw (e, ← ye) d),
      λ d. d,
      i.starless,
      omega arith,
      i.host_bound,
      omega (arith, i.pattern_bound),
    );
    starless = i.starless;
    host_bound = i.host_bound;
    pattern_bound = omega (arith, i.pattern_bound);
    fuel = omega (arith, i.fuel);
  }

  go_back-Answers :
      {f c : ℕ} {h p : Text} (m : ℕ) (star : Attempt) (round : Text → Text → Attempt → Result Bool)
      → ((m' : ℕ) (h' p' : Text) (s : Attempt) → LoopInv f m' h' p' s → Answers G (round h' p' s))
      → LoopInv (suc f) m (c ∷ h) p star
      → ¬ Matches (c ∷ h) p
      → Answers G (go_back round star)
  unfolding go_back
  go_back-Answers m none round ih i no_match = λ g. no_match (i.kept g)
  go_back-Answers m (some (behind, [])) round ih i no_match = absurd (omega (arith, i.kept.4))
  go_back-Answers zero (some (behind, r ∷ retry)) round ih i no_match =
      absurd (omega (arith, i.kept.5))
  go_back-Answers (suc m) (some (behind, r ∷ retry)) round ih i no_match =
      let (a, b, d, l, s, t, u) = i.kept in
      ih m retry behind (some (behind, retry)) (record {
        enough = λ e. b b'*' refl (take refl (skip refl e));
        within = λ g. forced refl (a g b'*' refl) (λ e. no_match (d e));
        kept = (
          λ g y ye. forced ye (a g y ye) (λ e. no_match (d e)),
          λ y ye e. b y ye (take ye e),
          λ e. e,
          l.1,
          omega arith,
          omega arith,
          u,
        );
        starless = l.1;
        host_bound = omega arith;
        pattern_bound = u;
        fuel = omega (arith, i.fuel);
      })

  match_loop-Answers :
      (f m : ℕ) (h p : Text) (star : Attempt)
      → LoopInv f m h p star
      → Answers G (match_loop f h p star)
  unfolding match_loop
  match_loop-Answers zero m h p star i = absurd (omega (arith, i.fuel))
  match_loop-Answers (suc f) m [] p star i =
      ok-Answers G (only_stars p)
        (λ h. i.enough ((only_stars_iff p).0 h), λ g. (only_stars_iff p).1 (end_inv (i.within g)).1)
  match_loop-Answers (suc f) m (c ∷ h) [] star i =
      go_back-Answers m star (match_loop f) (match_loop-Answers f) i λ d. elim d [ ]
  match_loop-Answers (suc f) m (c ∷ h) (x ∷ p) star i =
      if_cases (Answers G) (fits x c)
        (λ e.
          match_loop-Answers f m h p star (LoopInv-one star i (fits-starless x c i.starless.0 e) e))
        λ misfit.
          if_cases (Answers G) (x == b'*')
            (λ e.
              match_loop-Answers f m (c ∷ h) p (some (p, c ∷ h))
                (LoopInv-star star i ((==_iff x b'*').0 e)))
            λ other. go_back-Answers m star (match_loop f) (match_loop-Answers f) i λ d.
              false≢true
                (sym misfit ∙ (one_inv (λ e. false≢true (sym other ∙ (==_iff x b'*').1 e)) d).0)

-- `host_matches` always ends, and answers whether the pattern describes the host.
pub host_matches-Answers :
    (host pattern : Text)
    → IsStarless host
    → Answers (Matches host pattern) (host_matches host pattern)
unfolding host_matches
host_matches-Answers host pattern s =
    match_loop-Answers (Matches host pattern) (length pattern) _ (length host) host pattern none
      (record {
        enough = λ d. d;
        within = λ d. skip refl d;
        kept = λ d. d;
        starless = s;
        host_bound = omega arith;
        pattern_bound = omega arith;
        fuel = omega arith;
      })

-- For a host without stars, `host_matches` returns true exactly where the pattern describes the
-- host and false exactly where it does not, whatever way the stars have to be tried.
pub host_matches_iff :
    (host pattern : Text)
    → IsStarless host
    → ((host_matches host pattern ≡ ok true) ↔ Matches host pattern)
      × ((host_matches host pattern ≡ ok false) ↔ (¬ Matches host pattern))
host_matches_iff host pattern s =
    Answers-iff _ (host_matches host pattern) (host_matches-Answers host pattern s)
