-- ===== src/Config/Parser/Ends.antt =====
-- NativeDNS.Core/src/config.cpp: `XmlParser` ends on every text.
use native_dns.Prelude.{
  ℕ, zero, suc, ◌+◌, ◌<◌, Bool, false, not, ◌||◌, ◌≡◌, List, [], ◌∷◌, ltb, ◌==◌, if_cases, is_empty,
  length, drop, Text, codes, text_eq, Result, Safe, Safe-bind, Safe-throw_if, Safe-weaken, arith,
}
use native_dns.Rules.Validate.{starts_with}
use native_dns.Config.Xml.{xml}
use native_dns.Config.Xml.Ends.{Within}
use native_dns.Config.Parser.Lengths.{
  drop-starts_with, length-drop_le, skip_ws-length, section-Safe, skip_misc-UpTo, read_name-Leaves,
  read_attributes-Safe, UpTo, Headed,
}
use native_dns.Config.Parser.{
  Nodes, no_nodes, push_back, Read, is_white, skip_ws, stands, read_close, skip_content,
  read_content, finish_element, parse_element, max_depth, without_mark, parse,
}

-- What follows an element.
abbrev Closed : ℕ → Read → Type 0
Closed n (child, nodes, rest) = length rest < n

read_close-Safe : (opened text : Text) → Safe (UpTo (length text)) (read_close opened text)
unfolding read_close
read_close-Safe opened text =
    Safe-bind (Within (length text)) (UpTo (length text)) _ _ (read_name-Leaves text)
      λ (closed, behind) s.
        let at = skip_ws behind in
        Safe-throw_if (UpTo (length text)) (not (stands b'>' at)) _ _ λ _.
          Safe-throw_if (UpTo (length text)) (not (text_eq closed opened)) _ _
            λ _. omega (arith, s, skip_ws-length behind, length-drop_le 1 at)

skip_content-Safe : (text : Text) → Safe (UpTo (length text)) (skip_content text)
unfolding skip_content
skip_content-Safe [] = tt
skip_content-Safe (c ∷ text) =
    if_cases (Safe (UpTo (suc (length text)))) (c == b'<') (λ _. omega arith)
      (λ _.
        Safe-throw_if (UpTo (suc (length text))) (not (is_white c)) xml (skip_content text) (λ _.
          Safe-weaken (UpTo (length text)) (UpTo (suc (length text))) (skip_content text)
            (λ r h. omega (arith, h)) (skip_content-Safe text)))

blank-Safe :
    (text : Text)
    → stands b'<' text ≡ false
    → Safe (λ r. length r < length text) (skip_content text)
unfolding skip_content stands
blank-Safe [] e = tt
blank-Safe (c ∷ text) e = rw e (
    Safe-throw_if (λ r. length r < suc (length text)) (not (is_white c)) xml (skip_content text)
      (λ _.
        Safe-weaken (UpTo (length text)) (λ r. length r < suc (length text)) (skip_content text)
          (λ r h. omega (arith, h)) (skip_content-Safe text)))

read_content-Safe :
    (element : ℕ → Text → Result Read) (opened : Text) (attrs : List (Text × Text)) (n m : ℕ)
    (children : Nodes) (nodes : ℕ) (text : Text)
    → ((k : ℕ) (t : Text) → Safe (Closed (length t)) (element k t))
    → length text < n
    → length text < m
    → Safe (Closed m) (read_content element opened attrs n children nodes text)
unfolding read_content
read_content-Safe element opened attrs zero m children nodes text step h k =
    absurd (omega (arith, h))
read_content-Safe element opened attrs (suc n) m children nodes text step h k =
    let at = skip_ws text in
    let shorter = skip_ws-length text in
    let again = λ (c : Nodes) (i : ℕ) (t : Text) (s : length t < length at).
      read_content-Safe element opened attrs n m c i t step (omega (arith, s, shorter, h))
        (omega (arith, s, shorter, k)) in
    if_cases (Safe (Closed m)) (starts_with (codes "</") at)
      (λ p.
        Safe-bind (UpTo (length (drop 2 at))) (Closed m) _ _ (read_close-Safe opened (drop 2 at))
          λ rest s.
            omega (arith, s, drop-starts_with (codes "</") 1 at p (omega arith), shorter, k))
      (λ _.
        if_cases (Safe (Closed m)) (starts_with (codes "<!--") at)
          (λ p.
            section-Safe (Closed m) (read_content element opened attrs n children nodes)
              (codes "<!--") (codes "-->") at 3 p (omega arith) (again children nodes))
          (λ _.
            if_cases (Safe (Closed m)) (starts_with (codes "<![CDATA[") at) (λ _. tt)
              (λ _.
                if_cases (Safe (Closed m)) (stands b'<' at)
                  (λ _.
                    Safe-bind (Closed (length at)) (Closed m) _ _ (step nodes at)
                      λ (child, count, rest) s. again (push_back children child) count rest s)
                  (λ p.
                    Safe-bind (λ r. length r < length at) (Closed m) _ _ (blank-Safe at p)
                      λ rest s. again children nodes rest s))))

finish_element-Safe :
    (element : ℕ → Text → Result Read) (opened : Text) (nodes m : ℕ)
    (head : Bool × List (Text × Text) × Text)
    → ((k : ℕ) (t : Text) → Safe (Closed (length t)) (element k t))
    → Headed m head
    → Safe (Closed m) (finish_element element opened nodes head)
unfolding finish_element
finish_element-Safe element opened nodes m (goes_on, attrs, rest) step h =
    if_cases (Safe (Closed m)) goes_on
      (λ _.
        read_content-Safe element opened attrs (length rest + 1) m no_nodes nodes rest step
          (omega arith) h)
      (λ _. h)

parse_element-Safe :
    (depth nodes : ℕ) (text : Text) → Safe (Closed (length text)) (parse_element depth nodes text)
unfolding parse_element
parse_element-Safe zero nodes text = tt
parse_element-Safe (suc depth) nodes text =
    let at = skip_ws text in
    let inside = drop 1 at in
    let P = Closed (length text) in
    Safe-throw_if P (ltb 200000 (nodes + 1)) _ _ λ _.
      Safe-throw_if P (not (stands b'<' at) || starts_with (codes "</") at) _ _ λ _.
        Safe-throw_if P (stands b'!' inside || stands b'?' inside) _ _ λ _.
          Safe-bind (Within (length inside)) P _ _ (read_name-Leaves inside) λ (opened, behind) s.
            Safe-bind (Headed (length behind)) P _ _
              (read_attributes-Safe (length behind + 1) (length behind) [] behind (omega arith)
                (omega arith))
              λ head t.
                Safe-weaken (Closed (length behind)) P _
                  (λ (child, count, rest) u.
                    omega (arith, u, s, skip_ws-length text, length-drop_le 1 at))
                  (finish_element-Safe (parse_element depth) opened (nodes + 1) (length behind) head
                    (parse_element-Safe depth) t)

-- Parsing ends on every text, with a tree or an error: the bounds on its loops are never what
-- stops it.
pub parse-Safe : (text : Text) → Safe (λ _. Unit) (parse text)
unfolding parse
parse-Safe text =
    Safe-throw_if (λ _. Unit) (ltb 4194304 (length text)) _ _
      λ _.
        let marked = without_mark text in
        Safe-bind (UpTo (length marked)) (λ _. Unit) _ _
          (skip_misc-UpTo (length marked + 1) (length marked) marked (omega arith) (omega arith))
          λ start _.
            Safe-bind (Closed (length start)) (λ _. Unit) _ _
              (parse_element-Safe (max_depth + 1) 0 start)
              λ (root, nodes, rest) _.
                Safe-bind (UpTo (length rest)) (λ _. Unit) _ _
                  (skip_misc-UpTo (length rest + 1) (length rest) rest (omega arith) (omega arith))
                  λ behind _.
                    Safe-throw_if (λ _. Unit) (not (is_empty (skip_ws behind))) _ _ λ _. tt
