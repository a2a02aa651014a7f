-- ===== src/Rules/Names/Fixed.antt =====
-- NativeDNS.Core/src/rules.cpp: a canonical name goes through the normalizer unchanged.
use native_dns.Prelude.{
  ◌≤◌, ◌<◌, Bool, ◌≡◌, refl, ap, ◌∙◌, List, [], ◌∷◌, ◌++◌, append_assoc, append-nil, length,
  length-append, All, Text, ok, Safe-eq-ok, All-append, ge→ltb, arith,
}
use native_dns.Rules.Names.{
  trim_front, trim_back, drop_last_dot, split_dots, add_label, normalize_labels,
  normalize_ascii_name,
}
use native_dns.Rules.Names.Canonical.{
  dotted, join, IsLabelByte, IsLabel, IsCanonical, filled-is_empty, normalize-IsCanonical,
}

-- Each label of a canonical name is met again between its dots.
split_dots-append :
    (l : Text) (t : Text) {ls : List Text}
    → All IsLabelByte l
    → split_dots t ≡ [] ∷ ls
    → split_dots (l ++ t) ≡ l ∷ ls
unfolding split_dots
split_dots-append [] t h e = e
split_dots-append (c ∷ l) t h e = ground (arith, split_dots-append l t h.1 e)

split_dots-dotted :
    (p h : Bool) (ls : List Text) → All (IsLabel p h) ls → split_dots (dotted ls) ≡ [] ∷ ls
unfolding split_dots
split_dots-dotted p h [] good = refl
split_dots-dotted p h (l ∷ ls) good =
    ap (◌∷◌ []) (split_dots-append l (dotted ls) good.0.bytes (split_dots-dotted p h ls good.1))

pub split_dots-join :
    (p h : Bool) (l : Text) (ls : List Text)
    → All (IsLabel p h) (l ∷ ls)
    → split_dots (join (l ∷ ls)) ≡ l ∷ ls
split_dots-join p h l ls good =
    split_dots-append l (dotted ls) good.0.bytes (split_dots-dotted p h ls good.1)

normalize_labels-dotted :
    (p h : Bool) (ls : List Text) (result : Text)
    → 0 < length result
    → All (IsLabel p h) ls
    → normalize_labels p h ls result ≡ ok (result ++ dotted ls)
unfolding normalize_labels add_label
normalize_labels-dotted p h [] result some good = rw append-nil
normalize_labels-dotted p h (l ∷ ls) result some good =
    rw (good.0.fixed, filled-is_empty result some)
      (normalize_labels-dotted p h ls (result ++ b'.' ∷ l)
          (omega (arith, length-append result (b'.' ∷ l))) good.1
        ∙ ap ok (append_assoc result (b'.' ∷ l) (dotted ls)))

normalize_labels-join :
    (p h : Bool) (l : Text) (ls : List Text)
    → All (IsLabel p h) (l ∷ ls)
    → normalize_labels p h (l ∷ ls) [] ≡ ok (join (l ∷ ls))
unfolding normalize_labels add_label
normalize_labels-join p h l ls good =
    rw good.0.fixed (normalize_labels-dotted p h ls l good.0.filled good.1)

-- Nothing of a canonical name is trimmed.
abbrev IsVisible : Text → Type 0
IsVisible = All (λ c. 33 ≤ c)

trim_front-IsVisible : (t : Text) → IsVisible t → trim_front t ≡ t
unfolding trim_front
trim_front-IsVisible [] h = refl
trim_front-IsVisible (c ∷ t) h = ground arith

trim_back-IsVisible : (t : Text) → IsVisible t → trim_back t ≡ t
unfolding trim_back
trim_back-IsVisible [] h = refl
trim_back-IsVisible (c ∷ []) h = ground arith
trim_back-IsVisible (c ∷ d ∷ t) h = rw (trim_back-IsVisible (d ∷ t) h.1)

IsVisible-label : (l : Text) → All IsLabelByte l → IsVisible l
IsVisible-label [] h = tt
IsVisible-label (c ∷ l) h = (h.0.0, IsVisible-label l h.1)

IsVisible-dotted : (p h : Bool) (ls : List Text) → All (IsLabel p h) ls → IsVisible (dotted ls)
IsVisible-dotted p h [] good = tt
IsVisible-dotted p h (l ∷ ls) good = (
  omega arith,
  All-append _ l (dotted ls) (IsVisible-label l good.0.bytes) (IsVisible-dotted p h ls good.1),
)

-- A canonical name does not end in a dot.
drop_last_dot-append : (a b : Text) → 0 < length b → drop_last_dot (a ++ b) ≡ a ++ drop_last_dot b
unfolding drop_last_dot
drop_last_dot-append a [] some = elim some [ ]
drop_last_dot-append [] (d ∷ b) some = refl
drop_last_dot-append (c ∷ []) (d ∷ b) some = refl
drop_last_dot-append (c ∷ e ∷ a) (d ∷ b) some = rw (drop_last_dot-append (e ∷ a) (d ∷ b) some)

drop_last_dot-label : (l : Text) → All IsLabelByte l → drop_last_dot l ≡ l
unfolding drop_last_dot
drop_last_dot-label [] h = refl
drop_last_dot-label (c ∷ []) h = ground arith
drop_last_dot-label (c ∷ d ∷ l) h = rw (drop_last_dot-label (d ∷ l) h.1)

drop_last_dot-join :
    (p h : Bool) (l : Text) (ls : List Text)
    → All (IsLabel p h) (l ∷ ls)
    → drop_last_dot (join (l ∷ ls)) ≡ join (l ∷ ls)
unfolding drop_last_dot
drop_last_dot-join p h l [] good = rw append-nil (drop_last_dot-label l good.0.bytes)
drop_last_dot-join p h l (m ∷ ls) good =
    drop_last_dot-append l (dotted (m ∷ ls)) (omega arith)
    ∙ ap (◌++◌ l) (
        drop_last_dot-append (b'.' ∷ []) (join (m ∷ ls))
          (omega (arith, good.1.0.filled, length-append m (dotted ls)))
        ∙ ap (◌∷◌ b'.') (drop_last_dot-join p h m ls good.1))

-- A canonical name is left as it is.
pub normalize_fixed :
    (r : Text) (p h : Bool) → IsCanonical p h r → normalize_ascii_name r p h ≡ ok r
unfolding normalize_ascii_name
normalize_fixed r p h c =
    let visible : IsVisible r = rw c.joined (
      All-append _ c.first (dotted c.labels) (IsVisible-label c.first c.good.0.bytes)
        (IsVisible-dotted p h c.labels c.good.1)) in
    let some : 0 < length r =
      rw c.joined (omega (arith, c.good.0.filled, length-append c.first (dotted c.labels))) in
    let dotless : drop_last_dot r ≡ r =
      rw c.joined (drop_last_dot-join p h c.first c.labels c.good) in
    let pieces : split_dots r ≡ c.first ∷ c.labels =
      rw c.joined (split_dots-join p h c.first c.labels c.good) in
    let again : normalize_labels p h (c.first ∷ c.labels) [] ≡ ok r =
      rw c.joined (normalize_labels-join p h c.first c.labels c.good) in
    rw (
      trim_front-IsVisible r visible,
      trim_back-IsVisible r visible,
      filled-is_empty r some,
      dotless,
      filled-is_empty r some,
      pieces,
      again,
      ge→ltb 253 (length r) c.bounded,
    )

-- Normalizing twice is normalizing once: a name that was accepted is accepted again, unchanged.
pub normalize_idem :
    (text r : Text) (p h : Bool)
    → normalize_ascii_name text p h ≡ ok r
    → normalize_ascii_name r p h ≡ ok r
normalize_idem text r p h e =
    normalize_fixed r p h (Safe-eq-ok (IsCanonical p h) _ (normalize-IsCanonical text p h) e)
