-- ===== src/Dns/Wire/Layout.antt =====
-- NativeDNS.Core/src/dns_packet.cpp: reading back fields and uncompressed names where they stand.
use native_dns.Prelude.{
  ℕ, zero, suc, ◌+◌, ◌-◌, ◌*◌, ◌/◌, ◌≤◌, ◌<◌, true, false, not, ◌≡◌, refl, sym, ap, ◌∙◌, List, [],
  ◌∷◌, ◌++◌, append_assoc, append-nil, ltb, leb, ◌==◌, if◌then◌else◌, length, length-append,
  get_elem?-append, All, is_empty, Text, ok, arith,
}
use native_dns.Rules.Names.{lower}
use native_dns.Rules.Names.Canonical.{dotted, join, IsLabelByte, IsLabel, filled-is_empty}
use native_dns.Dns.Wire.{
  Packet, byte_at, is_short, word, Cursor, continue, cursor_at, is_label_byte, to_lower, read_label,
  start_of, take_label, name_round, resume_loop, name_loop, name,
}

-- The uncompressed form of a name, without its closing zero.
abbrev pub wire : List Text → Packet
wire [] = []
wire (l ∷ ls) = length l ∷ (l ++ wire ls)

pub byte_at-append :
    (pre : Packet) (b : ℕ) (rest : Packet) → byte_at (pre ++ b ∷ rest) (length pre) ≡ ok b
unfolding byte_at
byte_at-append pre b rest = rw (get_elem?-append pre b rest, byte_at)

pub byte_at-second :
    (pre : Packet) (a b : ℕ) (rest : Packet) → byte_at (pre ++ a ∷ b ∷ rest) (length pre + 1) ≡ ok b
byte_at-second pre a b rest =
    let at : length (pre ++ a ∷ []) ≡ length pre + 1 = omega (arith, length-append pre (a ∷ [])) in
    let whole : (pre ++ a ∷ []) ++ b ∷ rest ≡ pre ++ a ∷ b ∷ rest =
      append_assoc pre (a ∷ []) (b ∷ rest) in
    rw (← at, ← whole) (byte_at-append (pre ++ a ∷ []) b rest)

is_short-append :
    (pre tail : Packet) (n : ℕ) → n ≤ length tail → is_short (pre ++ tail) (length pre) n ≡ false
unfolding is_short
is_short-append pre tail n h = ground (arith, length-append pre tail)

pub word-append :
    (pre : Packet) (a b : ℕ) (rest : Packet)
    → word (pre ++ a ∷ b ∷ rest) (length pre) ≡ ok (a * 256 + b)
unfolding word
word-append pre a b rest = rw (
  is_short-append pre (a ∷ b ∷ rest) 2 (omega arith),
  byte_at-append pre a (b ∷ rest),
  byte_at-second pre a b rest,
)

-- A byte of `p` where `pre` ends.
byte_at-here :
    (p pre : Packet) (b : ℕ) (rest : Packet) (at : ℕ)
    → p ≡ pre ++ b ∷ rest
    → at ≡ length pre
    → byte_at p at ≡ ok b
byte_at-here p pre b rest at e a = rw (e, a) (byte_at-append pre b rest)

label_byte_lem : (c : ℕ) → IsLabelByte c → (is_label_byte c ≡ true) × (to_lower c ≡ c)
unfolding is_label_byte to_lower lower
label_byte_lem c h = ground arith

-- Reading a label that stands in the packet appends it.
read_label-append :
    (l : Text) (p pre rest : Packet) (at : ℕ) (result : Text)
    → All IsLabelByte l
    → p ≡ pre ++ (l ++ rest)
    → at ≡ length pre
    → read_label (length l) p at result ≡ ok (result ++ l, at + length l)
unfolding read_label
read_label-append [] p pre rest at result h e a =
    let stay : at + 0 ≡ at = omega arith in rw (append-nil, stay)
read_label-append (c ∷ l) p pre rest at result h e a =
    let (good, same) = label_byte_lem c h.0 in
    let later =
      read_label-append l p (pre ++ c ∷ []) rest (at + 1) (result ++ c ∷ []) h.1
        (e ∙ sym (append_assoc pre (c ∷ []) (l ++ rest)))
        (omega (arith, length-append pre (c ∷ []))) in
    let moved : at + 1 + length l ≡ at + suc (length l) = omega arith in
    rw (byte_at-here p pre c (l ++ rest) at e a, good, same)
      (later ∙ rw (append_assoc result (c ∷ []) l, moved))

-- The name so far once the labels `ls` have been added to it.
abbrev extended : Text → List Text → Text
extended result ls = if is_empty result then join ls else result ++ dotted ls

extended-nil : (result : Text) → extended result [] ≡ result
extended-nil [] = refl
extended-nil (c ∷ r) = append-nil (c ∷ r)

length-extended : (result : Text) (ls : List Text) → length result ≤ length (extended result ls)
length-extended [] ls = omega arith
length-extended (c ∷ r) ls = omega (arith, length-append (c ∷ r) (dotted ls))

extended-filled : (l : Text) (ls : List Text) → 0 < length l → extended l ls ≡ l ++ dotted ls
extended-filled l ls filled = rw (filled-is_empty l filled)

extended-cons :
    (result l : Text) (ls : List Text)
    → 0 < length l
    → extended (start_of result ++ l) ls ≡ extended result (l ∷ ls)
extended-cons [] l ls filled = extended-filled l ls filled
extended-cons (c ∷ r) l ls filled =
    append_assoc (c ∷ r ++ b'.' ∷ []) l (dotted ls)
    ∙ append_assoc (c ∷ r) (b'.' ∷ []) (l ++ dotted ls)

inside-leb :
    (p pre tail : Packet) (at : ℕ)
    → p ≡ pre ++ tail
    → at ≡ length pre
    → 0 < length tail
    → leb (length p) at ≡ false
inside-leb p pre tail at e a h = rw e (ground (arith, length-append pre tail))

label_head_tests :
    (n : ℕ)
    → 0 < n
    → n ≤ 63
    → ((n / 64 == 3) ≡ false) × (not (n / 64 == 0) ≡ false) × ((n == 0) ≡ false)
label_head_tests n pos short = ground arith

take_label-append :
    (l : Text) (p pre rest : Packet) (s : Cursor)
    → All IsLabelByte l
    → p ≡ pre ++ (length l ∷ (l ++ rest))
    → s.at ≡ length pre
    → length (start_of s.result) + length l ≤ 253
    → take_label p s (length l)
      ≡ ok (continue (record s { at = s.at + 1 + length l; result = start_of s.result ++ l }))
unfolding take_label
take_label-append l p pre rest s good e a bound =
    let tail = length l ∷ (l ++ rest) in
    let room : ltb (length p - (s.at + 1)) (length l) ≡ false =
      rw e (ground (arith, length-append pre tail, length-append l rest)) in
    let read =
      read_label-append l p (pre ++ length l ∷ []) rest (s.at + 1) (start_of s.result) good
        (e ∙ sym (append_assoc pre (length l ∷ []) (l ++ rest)))
        (omega (arith, length-append pre (length l ∷ []))) in
    let fits : ltb 253 (length (start_of s.result ++ l)) ≡ false =
      ground (arith, length-append (start_of s.result) l) in
    rw (room, read, fits)

-- A round that meets a label that fits.
name_round-label :
    (l : Text) (p pre rest : Packet) (s : Cursor)
    → IsLabel false false l
    → p ≡ pre ++ (length l ∷ (l ++ rest))
    → s.at ≡ length pre
    → length (start_of s.result) + length l ≤ 253
    → name_round p s
      ≡ ok (continue (record s { at = s.at + 1 + length l; result = start_of s.result ++ l }))
unfolding name_round take_label
name_round-label l p pre rest s good e a bound =
    let (plain, known, filled) = label_head_tests (length l) good.filled good.short in
    rw (byte_at-here p pre (length l) (l ++ rest) s.at e a, plain, known, filled)
      (take_label-append l p pre rest s good.bytes e a bound)

-- A run over labels and the closing zero, from any cursor that has not jumped.
name_loop-wire :
    (ls : List Text) (hops : ℕ) (p pre rest : Packet) (s : Cursor)
    → All (IsLabel false false) ls
    → p ≡ pre ++ (wire ls ++ 0 ∷ rest)
    → s.at ≡ length pre
    → s.jumped ≡ false
    → length ls < hops
    → length (extended s.result ls) ≤ 253
    → name_loop hops p s ≡ ok (extended s.result ls, s.at + length (wire ls) + 1)
unfolding name_loop name_round resume_loop
name_loop-wire ls zero p pre rest s good e a j h bound = elim h [ ]
name_loop-wire [] (suc hops) p pre rest s good e a j h bound =
    let moved : s.at + 1 ≡ s.at + 0 + 1 = omega arith in
    rw (
      inside-leb p pre (0 ∷ rest) s.at e a (omega arith),
      byte_at-here p pre 0 rest s.at e a,
      j,
      extended-nil s.result,
      moved,
    )
name_loop-wire (l ∷ ls) (suc hops) p pre rest s good e a j h bound =
    let tail = length l ∷ (l ++ (wire ls ++ 0 ∷ rest)) in
    let laid : p ≡ pre ++ tail =
      e ∙ ap (λ t. pre ++ length l ∷ t) (append_assoc l (wire ls) (0 ∷ rest)) in
    let after = record s { at = s.at + 1 + length l; result = start_of s.result ++ l } in
    let whole = extended-cons s.result l ls good.0.filled in
    let later =
      name_loop-wire ls hops p (pre ++ length l ∷ l) rest after good.1
        (laid ∙ sym (append_assoc pre (length l ∷ l) (wire ls ++ 0 ∷ rest)))
        (omega (arith, length-append pre (length l ∷ l))) j (omega arith) (rw whole bound) in
    let fits : length (start_of s.result) + length l ≤ 253 = omega (
      arith,
      bound,
      ap length whole,
      length-extended (start_of s.result ++ l) ls,
      length-append (start_of s.result) l,
    ) in
    let moved : s.at + 1 + length l + length (wire ls) + 1
        ≡ s.at + suc (length (l ++ wire ls)) + 1 =
      omega (arith, length-append l (wire ls)) in
    rw
      (
        inside-leb p pre tail s.at laid a (omega arith),
        name_round-label l p pre (wire ls ++ 0 ∷ rest) s good.0 laid a fits,
      )
      (later ∙ rw (whole, moved))

-- At least two bytes for each label behind the first.
length-dotted : (ls : List Text) → All (IsLabel false false) ls → 2 * length ls ≤ length (dotted ls)
length-dotted [] good = omega arith
length-dotted (l ∷ ls) good =
    omega (arith, good.0.filled, length-dotted ls good.1, length-append l (dotted ls))

-- A canonical name in its uncompressed form is read back, wherever it stands in the packet.
pub name-wire :
    (l : Text) (ls : List Text) (p pre rest : Packet)
    → All (IsLabel false false) (l ∷ ls)
    → length (join (l ∷ ls)) ≤ 253
    → p ≡ pre ++ (wire (l ∷ ls) ++ 0 ∷ rest)
    → name p (length pre) ≡ ok (join (l ∷ ls), length pre + length (wire (l ∷ ls)) + 1)
unfolding name
name-wire l ls p pre rest good bound e =
    let few = length-append l (dotted ls) in
    name_loop-wire (l ∷ ls) 128 p pre rest (cursor_at (length pre)) good e refl refl
      (omega (arith, few, bound, good.0.filled, length-dotted ls good.1)) bound

pub length-wire : (ls : List Text) → length (wire ls) ≡ length (dotted ls)
length-wire [] = refl
length-wire (l ∷ ls) =
    omega (arith, length-wire ls, length-append l (wire ls), length-append l (dotted ls))
