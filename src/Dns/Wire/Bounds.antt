-- ===== src/Dns/Wire/Bounds.antt =====
-- NativeDNS.Core/src/dns_packet.cpp: the readers of fields and names stay inside the packet.
use native_dns.Prelude.{
  ℕ, zero, suc, ◌+◌, ◌-◌, ◌/◌, ◌≤◌, ◌<◌, true, false, not, ◌≡◌, refl, ◌⊎◌, inl, inr, [], ◌∷◌, ◌++◌,
  ltb, leb, ◌==◌, if◌then◌else◌, Bool-cases, if_cases, length, get_elem?-lt, length-append, All,
  All-append, All-get_elem?, is_empty, Text, Result, ok, Safe, Safe-bind, Safe-throw_if,
  Safe-weaken, arith,
}
use native_dns.Dns.Wire.{
  Packet, byte_at, is_short, word, dword, Cursor, Progress, continue, finish, cursor_at,
  is_label_byte, to_lower, read_label, pointed, follow_pointer, start_of, take_label, name_round,
  resume_loop, name_loop, name,
}

abbrev pub IsPacket : Packet → Type 0
IsPacket p = All (λ b. b < 256) p

pub byte_at-lt : (p : Packet) (i : ℕ) → i < length p → Safe (λ _. Unit) (byte_at p i)
unfolding byte_at
byte_at-lt p i h = let (b, e) = get_elem?-lt p i h in rw (e, Safe) tt

pub byte_at-Safe :
    (p : Packet) (i : ℕ) → IsPacket p → i < length p → Safe (λ b. b < 256) (byte_at p i)
unfolding byte_at
byte_at-Safe p i v h = let (b, e) = get_elem?-lt p i h in rw (e, Safe) (All-get_elem? _ p i v e)

pub is_short-false : (p : Packet) (i n : ℕ) → is_short p i n ≡ false → i + n ≤ length p
unfolding is_short
is_short-false p i n h = ground arith

-- A field is read inside the packet or refused, and a word has sixteen bits.
pub word-Safe :
    (p : Packet) (i : ℕ) → IsPacket p → Safe (λ w. (w < 65536) × (i + 2 ≤ length p)) (word p i)
unfolding word
word-Safe p i v = Safe-throw_if _ (is_short p i 2) _ _ λ h.
    let fits = is_short-false p i 2 h in
    Safe-bind _ _ (byte_at p i) _ (byte_at-Safe p i v (omega arith)) λ a ha.
      Safe-bind _ _ (byte_at p (i + 1)) _ (byte_at-Safe p (i + 1) v (omega arith))
        λ b hb. (omega arith, fits)

pub dword-Safe :
    (p : Packet) (i : ℕ)
    → IsPacket p
    → Safe (λ w. (w < 4294967296) × (i + 4 ≤ length p)) (dword p i)
unfolding dword
dword-Safe p i v = Safe-throw_if _ (is_short p i 4) _ _ λ h.
    let fits = is_short-false p i 4 h in
    Safe-bind _ _ (byte_at p i) _ (byte_at-Safe p i v (omega arith)) λ a ha.
      Safe-bind _ _ (byte_at p (i + 1)) _ (byte_at-Safe p (i + 1) v (omega arith)) λ b hb.
        Safe-bind _ _ (byte_at p (i + 2)) _ (byte_at-Safe p (i + 2) v (omega arith)) λ c hc.
          Safe-bind _ _ (byte_at p (i + 3)) _ (byte_at-Safe p (i + 3) v (omega arith))
            λ d hd. (omega arith, fits)

-- A byte of a name that was read: printable and in lower case.
abbrev pub IsNameByte : ℕ → Type 0
IsNameByte c = (33 ≤ c) × (c ≤ 126) × ((c < 65) ⊎ (90 < c))

to_lower-IsNameByte : (c : ℕ) → is_label_byte c ≡ true → IsNameByte (to_lower c)
unfolding is_label_byte to_lower
to_lower-IsNameByte c h = ground arith

length-is_empty : (t : Text) → is_empty t ≡ true → length t ≡ 0
length-is_empty [] e = refl
length-is_empty (c ∷ t) e = cc

record LabelRead (n at : ℕ) (before : Text) (r : Text × ℕ) : Type 0 where
  grown : length r.0 ≡ length before + n
  moved : r.1 ≡ at + n
  readable : All IsNameByte r.0

read_label-Safe :
    (n : ℕ) (p : Packet) (at : ℕ) (before : Text)
    → at + n ≤ length p
    → All IsNameByte before
    → Safe (LabelRead n at before) (read_label n p at before)
unfolding read_label
read_label-Safe zero p at before h t = record {
  grown = omega arith;
  moved = omega arith;
  readable = t;
}
read_label-Safe (suc n) p at before h t =
    Safe-bind _ _ (byte_at p at) _ (byte_at-lt p at (omega arith)) λ c _.
      Safe-throw_if _ (not (is_label_byte c)) _ _ λ good.
        let before' = before ++ to_lower c ∷ [] in
        let t' : All IsNameByte before' =
          All-append IsNameByte before _ t (to_lower-IsNameByte c (ground arith), tt) in
        Safe-weaken (LabelRead n (at + 1) before') (LabelRead (suc n) at before) _
          (λ r l. record {
            grown = omega (arith, l.grown, length-append before (to_lower c ∷ []));
            moved = omega (arith, l.moved);
            readable = l.readable;
          })
          (read_label-Safe n p (at + 1) before' (omega arith) t')

-- What holds of `name`'s variables; `start` is the offset at which it was called.
record CursorInv (p : Packet) (start : ℕ) (s : Cursor) : Type 0 where
  short : length s.result ≤ 253
  readable : All IsNameByte s.result
  forward : s.jumped ≡ false → (start ≤ s.at) × (s.at ≤ start + length s.result + 1)
  fresh : is_empty s.result ≡ true → s.jumped ≡ false → s.at ≡ start
  resumed : s.jumped ≡ true → (start < s.resume) × (s.resume ≤ length p) × (s.resume ≤ start + 256)

-- What holds of the name read and of the offset behind it.
pub record NameRead (p : Packet) (start : ℕ) (r : Text × ℕ) : Type 0 where
  pub short : length r.0 ≤ 253
  pub readable : All IsNameByte r.0
  pub after : start < r.1
  pub inside : r.1 ≤ length p
  pub near : r.1 ≤ start + 256

abbrev ProgressInv : Packet → ℕ → Progress → Type 0
ProgressInv p start (continue s) = CursorInv p start s
ProgressInv p start (finish t o) = NameRead p start (t, o)

module _ (p : Packet) (start : ℕ) where
  follow_pointer-Safe :
      (s : Cursor) (head : ℕ)
      → CursorInv p start s
      → s.at < length p
      → Safe (ProgressInv p start) (follow_pointer p s head)
  unfolding follow_pointer
  follow_pointer-Safe s head i h = Safe-throw_if _ (leb (length p) (s.at + 1)) _ _ λ room.
      Safe-bind _ _ (byte_at p (s.at + 1)) _ (byte_at-lt p (s.at + 1) (ground arith)) λ low _.
        Safe-throw_if (ProgressInv p start) _ _ (ok (continue (pointed s head low))) λ _. record {
          short = i.short;
          readable = i.readable;
          forward = λ e. cc;
          fresh = λ _ e. cc;
          resumed = λ _. ground (arith, i.forward, i.resumed);
        }

  start_of-readable : (s : Cursor) → All IsNameByte s.result → All IsNameByte (start_of s.result)
  start_of-readable s h =
      if_cases (All IsNameByte) (is_empty s.result) (λ _. h)
        λ _. All-append IsNameByte s.result _ h (omega arith)

  labelled-forward :
      (s : Cursor) (count : ℕ)
      → CursorInv p start s
      → (r : Text × ℕ) → LabelRead count (s.at + 1) (start_of s.result) r
      → s.jumped ≡ false
      → (start ≤ r.1) × (r.1 ≤ start + length r.0 + 1)
  labelled-forward s count i r l e = elim (Bool-cases (is_empty s.result)) [
    | inl empty ↦
        let here = i.fresh empty e in
        (omega (arith, l.moved, here), omega (arith, l.moved, here, l.grown))
    | inr more ↦
        let (before, behind) = i.forward e in
        let grown = rw more at l.grown in
        (omega (arith, l.moved), omega (arith, l.moved, grown, length-append s.result (b'.' ∷ [])))
  ]

  take_label-Safe :
      (s : Cursor) (count : ℕ)
      → CursorInv p start s
      → s.at < length p
      → 0 < count
      → Safe (ProgressInv p start) (take_label p s count)
  unfolding take_label
  take_label-Safe s count i h pos =
      Safe-throw_if (ProgressInv p start) (ltb (length p - (s.at + 1)) count) _ _ λ fits.
        Safe-bind (LabelRead count (s.at + 1) (start_of s.result)) (ProgressInv p start)
          (read_label count p (s.at + 1) (start_of s.result)) _
          (read_label-Safe count p (s.at + 1) _ (ground arith) (start_of-readable s i.readable))
          λ r l. Safe-throw_if (ProgressInv p start) (ltb 253 (length r.0)) _ _ λ bounded. record {
            short = ground arith;
            readable = l.readable;
            forward = λ e. labelled-forward s count i r l e;
            fresh = λ empty. absurd (omega (arith, l.grown, length-is_empty r.0 empty));
            resumed = i.resumed;
          }

  ended-NameRead :
      (s : Cursor)
      → CursorInv p start s
      → s.at < length p
      → NameRead p start (s.result, if s.jumped then s.resume else s.at + 1)
  ended-NameRead s i h = record {
    short = i.short;
    readable = i.readable;
    after = ground (arith, i.forward, i.resumed);
    inside = ground (arith, i.forward, i.resumed);
    near = ground (arith, i.forward, i.resumed);
  }

  resume_loop-Safe :
      (loop : Cursor → Result (Text × ℕ))
      → ((s : Cursor) → CursorInv p start s → Safe (NameRead p start) (loop s))
      → (r : Progress) → ProgressInv p start r
      → Safe (NameRead p start) (resume_loop loop r)
  unfolding resume_loop
  resume_loop-Safe loop ih (continue s) i = ih s i
  resume_loop-Safe loop ih (finish t o) i = i

  name_round-Safe :
      (s : Cursor)
      → CursorInv p start s
      → s.at < length p
      → Safe (ProgressInv p start) (name_round p s)
  unfolding name_round
  name_round-Safe s i h = Safe-bind _ _ (byte_at p s.at) _ (byte_at-lt p s.at h) λ head _.
      if_cases (Safe (ProgressInv p start)) (head / 64 == 3) (λ _. follow_pointer-Safe s head i h)
        λ _.
          if_cases (Safe (ProgressInv p start)) (not (head / 64 == 0)) (λ _. tt)
            λ _.
              if_cases (Safe (ProgressInv p start)) (head == 0) (λ _. ended-NameRead s i h)
                λ more. take_label-Safe s head i h (ground arith)

  name_loop-Safe :
      (hops : ℕ) (s : Cursor) → CursorInv p start s → Safe (NameRead p start) (name_loop hops p s)
  unfolding name_loop resume_loop
  name_loop-Safe zero s i = tt
  name_loop-Safe (suc hops) s i = Safe-throw_if _ (leb (length p) s.at) _ _ λ h.
      Safe-bind _ _ (name_round p s) _ (name_round-Safe s i (ground arith))
        (resume_loop-Safe (name_loop hops p) (name_loop-Safe hops))

-- A name that is read lies inside the packet, within 256 bytes of its start, and is short and
-- readable, wherever its pointers lead; and reading never leaves the packet.
pub name-Safe : (p : Packet) (start : ℕ) → Safe (NameRead p start) (name p start)
unfolding name
name-Safe p start = name_loop-Safe p start 128 (cursor_at start) (record {
  short = omega arith;
  readable = tt;
  forward = λ _. omega arith;
  fresh = λ _ _. refl;
  resumed = λ e. cc;
})
