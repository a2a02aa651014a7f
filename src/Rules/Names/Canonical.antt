-- ===== src/Rules/Names/Canonical.antt =====
-- NativeDNS.Core/src/rules.cpp: what a canonical name is, and that normalizing keeps it.
use native_dns.Prelude.{
  ℕ, suc, ◌≤◌, ◌<◌, Bool, true, false, ◌≡◌, ◌≢◌, refl, ap, ◌∙◌, sym, List, [], ◌∷◌, ◌++◌,
  append_assoc, append-nil, ltb, ◌==◌, length, length-append, All, is_empty, Text, ok, Safe,
  Safe-bind, Safe-throw_if, Safe-weaken, if_cases, arith,
}
use native_dns.Rules.Names.{
  trim_front, trim_back, drop_last_dot, split_dots, lower, normalize_byte, normalize_bytes,
  normalize_label, add_label, normalize_labels, normalize_ascii_name,
}

-- `.l₁.l₂…`, and the labels joined by dots.
abbrev pub dotted : List Text → Text
dotted [] = []
dotted (l ∷ ls) = b'.' ∷ (l ++ dotted ls)

abbrev pub join : List Text → Text
join [] = []
join (l ∷ ls) = l ++ dotted ls

-- The bytes that a canonical label holds.
abbrev pub IsLabelByte : ℕ → Type 0
IsLabelByte c = (33 ≤ c) × (c ≤ 126) × (c ≢ b'.') × (lower c ≡ c)

-- A canonical label: short, not empty, and left as it is by another run.
pub record IsLabel (p h : Bool) (l : Text) : Type 0 where
  pub fixed : normalize_label p h l ≡ ok l
  pub bytes : All IsLabelByte l
  pub filled : 0 < length l
  pub short : length l ≤ 63

-- A canonical name: labels joined by dots, 253 bytes at most.
pub record IsCanonical (p h : Bool) (r : Text) : Type 0 where
  pub first : Text
  pub labels : List Text
  pub good : All (IsLabel p h) (first ∷ labels)
  pub joined : r ≡ join (first ∷ labels)
  pub bounded : length r ≤ 253

pub length-is_empty : (l : Text) → is_empty l ≡ false → 0 < length l
length-is_empty [] e = cc
length-is_empty (c ∷ l) e = omega arith

pub filled-is_empty : (l : Text) → 0 < length l → is_empty l ≡ false
filled-is_empty [] e = elim e [ ]
filled-is_empty (c ∷ l) e = refl

fits-ltb :
    (l m : Text) → length m ≡ length l → ltb 63 (length l) ≡ false → ltb 63 (length m) ≡ false
fits-ltb l m same short = ground arith

split_dots-cons : (t : Text) → (l : Text) × (ls : List Text) × (split_dots t ≡ l ∷ ls)
unfolding split_dots
split_dots-cons [] = ([], [], refl)
split_dots-cons (c ∷ t) =
    let (l, ls, e) = split_dots-cons t in
    if_cases (λ r. (l : Text) × (ls : List Text) × (r ≡ l ∷ ls)) (c == b'.')
      (λ _. ([], split_dots t, refl)) λ _. (c ∷ l, ls, rw e)

-- The four kinds of name that the two flags choose, each settled by arithmetic.
normalize_byte-Safe :
    (p h : Bool) (b : ℕ)
    → Safe (λ c. (normalize_byte p h c ≡ ok c) × IsLabelByte c) (normalize_byte p h b)
unfolding normalize_byte
normalize_byte-Safe true true b = ground arith
normalize_byte-Safe _ _ b = ground arith

module _ (p h : Bool) where
  abbrev KeptByte : ℕ → Type 0
  KeptByte c = (normalize_byte p h c ≡ ok c) × IsLabelByte c

  abbrev Kept : ℕ → Text → Type 0
  Kept n m = (normalize_bytes p h m ≡ ok m) × All IsLabelByte m × (length m ≡ n)

  normalize_bytes-Safe : (l : Text) → Safe (Kept (length l)) (normalize_bytes p h l)
  unfolding normalize_bytes
  normalize_bytes-Safe [] = (refl, tt, refl)
  normalize_bytes-Safe (b ∷ l) =
      Safe-bind KeptByte (Kept (suc (length l))) _ _ (normalize_byte-Safe p h b) λ c (keep, good).
        Safe-bind (Kept (length l)) (Kept (suc (length l))) _ _ (normalize_bytes-Safe l)
          λ cs (keeps, goods, same). (rw (keep, keeps), (good, goods), ap suc same)

  normalize_label-Safe : (l : Text) → Safe (IsLabel p h) (normalize_label p h l)
  unfolding normalize_label
  normalize_label-Safe l = Safe-throw_if (IsLabel p h) (is_empty l) _ _ λ filled.
      Safe-throw_if (IsLabel p h) (ltb 63 (length l)) _ _ λ short.
        Safe-bind (Kept (length l)) (IsLabel p h) _ _ (normalize_bytes-Safe l)
          λ m (keep, good, same). Safe-throw_if (IsLabel p h) _ _ (ok m) λ inner.
            let some : 0 < length m = omega (arith, same, length-is_empty l filled) in
            record {
              fixed = rw (filled-is_empty m some, fits-ltb l m same short, keep, inner);
              bytes = good;
              filled = some;
              short = ground arith;
            }

  -- From a result that is not empty, each label is put behind a dot.
  abbrev Extends : ℕ → Text → Text → Type 0
  Extends n result r =
      (ms : List Text) × All (IsLabel p h) ms × (length ms ≡ n) × (r ≡ result ++ dotted ms)

  normalize_labels-Safe :
      (ls : List Text) (result : Text)
      → 0 < length result
      → Safe (Extends (length ls) result) (normalize_labels p h ls result)
  unfolding normalize_labels add_label
  normalize_labels-Safe [] result some = ([], tt, refl, sym (append-nil result))
  normalize_labels-Safe (l ∷ ls) result some =
      Safe-bind (IsLabel p h) (Extends (suc (length ls)) result) _ _ (normalize_label-Safe l)
        λ m good. rw (filled-is_empty result some) (
          Safe-weaken (Extends (length ls) (result ++ b'.' ∷ m)) (Extends (suc (length ls)) result)
            _
            (λ r (ms, goods, same, e).
              (m ∷ ms, (good, goods), ap suc same, e ∙ append_assoc result (b'.' ∷ m) (dotted ms)))
            (normalize_labels-Safe ls (result ++ b'.' ∷ m)
              (omega (arith, length-append result (b'.' ∷ m)))))

  abbrev Joined : Text → Type 0
  Joined r = (l : Text) × (ls : List Text) × All (IsLabel p h) (l ∷ ls) × (r ≡ join (l ∷ ls))

  normalize_labels-Joined :
      (l : Text) (ls : List Text) → Safe Joined (normalize_labels p h (l ∷ ls) [])
  unfolding normalize_labels add_label
  normalize_labels-Joined l ls =
      Safe-bind (IsLabel p h) Joined _ _ (normalize_label-Safe l) λ m good.
        Safe-weaken (Extends (length ls) m) Joined _
          (λ r (ms, goods, _, e). (m, ms, (good, goods), e))
          (normalize_labels-Safe ls m good.filled)

-- Normalizing a text refuses it or gives a canonical name.
pub normalize-IsCanonical :
    (text : Text) (p h : Bool) → Safe (IsCanonical p h) (normalize_ascii_name text p h)
unfolding normalize_ascii_name
normalize-IsCanonical text p h = Safe-throw_if (IsCanonical p h) (is_empty trimmed) _ _ λ _.
    Safe-throw_if (IsCanonical p h) (is_empty (drop_last_dot trimmed)) _ _ λ _.
      Safe-bind (Joined p h) (IsCanonical p h) _ _
        (pieces (split_dots (drop_last_dot trimmed)) (split_dots-cons (drop_last_dot trimmed)))
        λ r (l, ls, goods, e).
          Safe-throw_if (IsCanonical p h) (ltb 253 (length r)) _ (ok r) λ bounded. record {
            first = l;
            labels = ls;
            good = goods;
            joined = e;
            bounded = ground arith;
          }
  where
    trimmed : Text
    trimmed = trim_back (trim_front text)

    pieces :
        (ps : List Text)
        → ((l : Text) × (ls : List Text) × (ps ≡ l ∷ ls))
        → Safe (Joined p h) (normalize_labels p h ps [])
    pieces ps (l, ls, e) = rw e (normalize_labels-Joined p h l ls)
