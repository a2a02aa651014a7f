-- ===== src/Config/Values/Lists.antt =====
-- NativeDNS.Core/src/config.cpp: lists and enumerations are read back from how they are written.
use native_dns.Prelude.{
  Bool, true, false, not, ◌&&◌, ◌≡◌, refl, sym, ap, ◌∙◌, List, [], ◌∷◌, ◌++◌, append_assoc,
  append-nil, ◌==◌, all, is_empty, Text, text_eq, ok,
}
use native_dns.Model.{
  Protocol, udp, tcp, doh, dot, doh3, doq, dnscrypt, anonymized_dnscrypt, Action, process, bypass,
  block,
}
use native_dns.Config.Values.{
  protocol_name, read_protocol, action_name, read_action, join_to, join, split_from, split,
}

-- No value is empty or has a semicolon.
abbrev pub Items : List Text → Type 0
Items [] = Unit
Items (v ∷ values) = (is_empty v ≡ false) × (all (λ c. not (c == b';')) v ≡ true) × Items values

-- What stands behind the first value.
tail_of : List Text → Text
tail_of [] = []
tail_of (v ∷ values) = b';' ∷ v ++ tail_of values

append-filled : (out v : Text) → is_empty out ≡ false → is_empty (out ++ v) ≡ false
append-filled [] v h = cc
append-filled (c ∷ out) v h = refl

join_to-tail_of :
    (out : Text) (values : List Text)
    → is_empty out ≡ false
    → join_to out values ≡ out ++ tail_of values
unfolding join_to tail_of
join_to-tail_of out [] h = sym (append-nil out)
join_to-tail_of out (v ∷ values) h = rw h (
    join_to-tail_of (out ++ b';' ∷ v) values (append-filled out (b';' ∷ v) h)
    ∙ append_assoc out (b';' ∷ v) (tail_of values))

and-parts : (a b : Bool) → (a && b) ≡ true → (a ≡ true) × (b ≡ true)
and-parts true b h = (refl, h)
and-parts false b h = cc

not-true : (b : Bool) → not b ≡ true → b ≡ false
not-true true h = cc
not-true false h = refl

-- A value is read byte by byte.
split_from-append :
    (v line rest : Text)
    → all (λ c. not (c == b';')) v ≡ true
    → split_from line (v ++ rest) ≡ split_from (line ++ v) rest
unfolding split_from
split_from-append [] line rest h = ap (λ l. split_from l rest) (sym (append-nil line))
split_from-append (c ∷ v) line rest h =
    let (plain, others) = and-parts (not (c == b';')) _ h in
    rw (not-true (c == b';') plain) (
      split_from-append v (line ++ c ∷ []) rest others
      ∙ ap (λ l. split_from l rest) (append_assoc line (c ∷ []) v))

split_from-tail_of :
    (line : Text) (values : List Text)
    → is_empty line ≡ false
    → Items values
    → split_from line (tail_of values) ≡ line ∷ values
unfolding split_from tail_of
split_from-tail_of line [] h items = rw h refl
split_from-tail_of line (v ∷ values) h (filled, plain, items) = rw h (
    ap (λ l. line ∷ l)
      (split_from-append v [] (tail_of values) plain ∙ split_from-tail_of v values filled items))

pub split-join : (values : List Text) → Items values → split (join values) ≡ values
unfolding split join join_to split_from
split-join [] items = refl
split-join (v ∷ values) (filled, plain, items) =
    ap (split_from []) (join_to-tail_of v values filled)
    ∙ split_from-append v [] (tail_of values) plain
    ∙ split_from-tail_of v values filled items

pub read_protocol-protocol_name : (p : Protocol) → read_protocol (protocol_name p) ≡ ok p
unfolding read_protocol protocol_name text_eq
read_protocol-protocol_name udp = refl
read_protocol-protocol_name tcp = refl
read_protocol-protocol_name doh = refl
read_protocol-protocol_name dot = refl
read_protocol-protocol_name doh3 = refl
read_protocol-protocol_name doq = refl
read_protocol-protocol_name dnscrypt = refl
read_protocol-protocol_name anonymized_dnscrypt = refl

pub read_action-action_name : (a : Action) → read_action (action_name a) ≡ ok a
unfolding read_action action_name text_eq
read_action-action_name process = refl
read_action-action_name bypass = refl
read_action-action_name block = refl
