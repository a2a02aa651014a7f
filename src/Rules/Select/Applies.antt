-- ===== src/Rules/Select/Applies.antt =====
-- NativeDNS.Core/src/rules.cpp: whether a pattern of a rule describes a host, and the loop over the
-- patterns that `match_rule` and `evaluate_rule` share.
use native_dns.Prelude.{
  ℕ, Bool, true, false, ◌≡◌, ◌≢◌, refl, sym, ◌∙◌, ◌⊎◌, inl, inr, List, [], ◌∷◌, if◌then◌else◌, All,
  All-append, is_empty, length, ltb, Text, Result, ok, err, fault, ◌>>=◌, throw_if, >>=-eq-ok,
  Safe-eq-ok, arith, host,
}
use native_dns.Rules.Names.{
  lower, is_wildcard, normalize_byte, normalize_bytes, normalize_label, normalize_dns_name,
}
use native_dns.Rules.Names.Canonical.{dotted, IsLabel, IsCanonical, normalize-IsCanonical}
use native_dns.Rules.Match.{host_matches}
use native_dns.Rules.Match.Correct.{
  Matches, both_end, skip, take, IsStarless, Answers, host_matches-Answers,
}
use native_dns.Rules.Validate.{check_patterns}
use native_dns.Rules.Select.{any_pattern}

-- A canonical host has no star.
normalize_byte-starless : (b : ℕ) {c : ℕ} → normalize_byte false false b ≡ ok c → b ≢ b'*'
unfolding normalize_byte lower is_wildcard
normalize_byte-starless b e s = ground arith

normalize_bytes-IsStarless :
    (l : Text) {m : Text} → normalize_bytes false false l ≡ ok m → IsStarless l
unfolding normalize_bytes
normalize_bytes-IsStarless [] e = tt
normalize_bytes-IsStarless (b ∷ l) e =
    let (_, first, e₁) = >>=-eq-ok (normalize_byte false false b) _ e in
    let (_, rest, _) = >>=-eq-ok (normalize_bytes false false l) _ e₁ in
    (normalize_byte-starless b first, normalize_bytes-IsStarless l rest)

label-IsStarless : (l : Text) → IsLabel false false l → IsStarless l
unfolding normalize_label
label-IsStarless l good =
    let (_, _, e₁) = >>=-eq-ok (throw_if (is_empty l) host) _ good.fixed in
    let (_, _, e₂) = >>=-eq-ok (throw_if (ltb 63 (length l)) host) _ e₁ in
    let (_, kept, _) = >>=-eq-ok (normalize_bytes false false l) _ e₂ in
    normalize_bytes-IsStarless l kept

dot-starless : ◌≢◌ {A = ℕ} b'.' b'*'
dot-starless e = omega (arith, e)

dotted-IsStarless : (ls : List Text) → All (IsLabel false false) ls → IsStarless (dotted ls)
dotted-IsStarless [] h = tt
dotted-IsStarless (l ∷ ls) h =
    let tail = dotted-IsStarless ls h.1 in
    (dot-starless, All-append (λ c. c ≢ b'*') l (dotted ls) (label-IsStarless l h.0) tail)

pub normalized-IsStarless :
    (text : Text) {h : Text} → normalize_dns_name text false ≡ ok h → IsStarless h
unfolding normalize_dns_name
normalized-IsStarless text {h} e =
    let c = Safe-eq-ok (IsCanonical false false) _ (normalize-IsCanonical text false false) e in
    rw c.joined (
      All-append _ c.first (dotted c.labels) (label-IsStarless c.first c.good.0)
        (dotted-IsStarless c.labels c.good.1))

-- The pattern, in its canonical form, describes the host.
pub Describes : Text → Text → Type 0
Describes h p = (q : Text) × (normalize_dns_name p true ≡ ok q) × Matches h q

abbrev pub Applies : Text → List Text → Type 0
Applies h [] = ⊥
Applies h (p ∷ ps) = Describes h p ⊎ Applies h ps

ok_inj {ℓ} : {A : Type ℓ} {a b : A} → ok a ≡ ok b → a ≡ b
ok_inj e = cc

Answers-map : (D G : Type 0) (m : Result Bool) → (D → G) → (G → D) → Answers D m → Answers G m
Answers-map D G (ok true) to from d = to d
Answers-map D G (ok false) to from d = λ g. d (from g)
Answers-map D G (err c) to from d = d
Answers-map D G fault to from d = d

-- A test that stops at the first success.
or-Answers :
    (G D R : Type 0) (m rest : Result Bool)
    → Answers D m
    → Answers R rest
    → (D → G)
    → (R → G)
    → (G → D ⊎ R)
    → Answers G (m >>= λ b. if b then ok true else rest)
or-Answers G D R (ok true) rest d r left right split = left d
or-Answers G D R (ok false) (ok true) d r left right split = right r
or-Answers G D R (ok false) (ok false) d r left right split =
    λ g. elim (split g) [ inl x ↦ d x | inr y ↦ r y ]
or-Answers G D R (ok false) (err c) d r left right split = r
or-Answers G D R (ok false) fault d r left right split = r
or-Answers G D R (err c) rest d r left right split = d
or-Answers G D R fault rest d r left right split = d

module _ (h : Text) (starless : IsStarless h) where
  described-Answers :
      (p q : Text) → normalize_dns_name p true ≡ ok q → Answers (Describes h p) (host_matches h q)
  unfolding Describes
  described-Answers p q e =
      Answers-map (Matches h q) (Describes h p) (host_matches h q) (λ m. (q, e, m))
        (λ (q', e', m). rw (ok_inj (sym e ∙ e')) m) (host_matches-Answers h q starless)

  pub any_pattern-Answers :
      (ps : List Text) → check_patterns ps ≡ ok tt → Answers (Applies h ps) (any_pattern h ps)
  unfolding any_pattern check_patterns
  any_pattern-Answers [] e = λ a. a
  any_pattern-Answers (p ∷ ps) e =
      let (q, parsed, rest) = >>=-eq-ok (normalize_dns_name p true) _ e in
      rw (parsed, Answers)
        (or-Answers (Applies h (p ∷ ps)) (Describes h p) (Applies h ps) (host_matches h q)
          (any_pattern h ps) (described-Answers p q parsed) (any_pattern-Answers ps rest)
          (λ d. inl d) (λ a. inr a) (λ a. a))

star-Matches : (h : Text) → Matches h (b'*' ∷ [])
star-Matches [] = skip refl both_end
star-Matches (c ∷ h) = take refl (star-Matches h)

star_parsed : normalize_dns_name (b'*' ∷ []) true ≡ ok (b'*' ∷ [])
unfolding normalize_dns_name
star_parsed = refl

pub star-Applies : (h : Text) (ps : List Text) → ps ≡ (b'*' ∷ []) ∷ [] → Applies h ps
unfolding Describes
star-Applies h ps e = rw e (inl (b'*' ∷ [], star_parsed, star-Matches h))
