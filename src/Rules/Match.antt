-- ===== src/Rules/Match.antt =====
-- NativeDNS.Core/src/rules.cpp: `host_matches`. The indices `h` and `p` are the suffixes that they
-- begin; `star` and `retry` are the pattern behind the last star and the host at its last attempt.
pub mod Correct
use native_dns.Prelude.{
  ℕ, zero, suc, ◌+◌, ◌*◌, Bool, true, false, ◌||◌, Option, none, some, List, [], ◌∷◌, ◌==◌,
  if◌then◌else◌, length, Text, Result, ok, fault,
}

abbrev pub Attempt : Type 0
Attempt = Option (Text × Text)

-- `while (p < pattern.size() && pattern[p] == '*') ++p; return p == pattern.size();`
unfoldable pub only_stars : Text → Bool
only_stars [] = true
only_stars (x ∷ p) = let rest = only_stars p in if x == b'*' then rest else false

-- `pattern[p] == '?' || pattern[p] == host[h]`
unfoldable pub fits : ℕ → ℕ → Bool
fits x c = x == b'?' || x == c

-- The last two branches of the loop's body.
unfoldable pub go_back : (Text → Text → Attempt → Result Bool) → Attempt → Result Bool
go_back round none = ok false
go_back round (some (behind, [])) = fault
go_back round (some (behind, c ∷ retry)) = round retry behind (some (behind, retry))

-- The loop, on fuel.
unfoldable pub match_loop : ℕ → Text → Text → Attempt → Result Bool
unfolding only_stars go_back fits
match_loop zero h p star = fault
match_loop (suc f) [] p star = ok (only_stars p)
match_loop (suc f) (c ∷ h) [] star = go_back (match_loop f) star
match_loop (suc f) (c ∷ h) (x ∷ p) star =
    let onward = match_loop f h p star in
    let starred = match_loop f (c ∷ h) p (some (p, c ∷ h)) in
    let again = go_back (match_loop f) star in
    if fits x c then onward else if x == b'*' then starred else again

unfoldable pub host_matches : Text → Text → Result Bool
unfolding match_loop
host_matches host pattern =
    match_loop (length host * (length pattern + 1) + length pattern + 1) host pattern none
