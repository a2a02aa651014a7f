-- ===== src/Rules/Options.antt =====
-- NativeDNS.Core/src/config.cpp: `runtime_options`, with `std::from_chars` on a `uint32_t`.
pub mod Bounds
use native_dns.Prelude.{
  ℕ, zero, ◌+◌, ◌-◌, ◌*◌, Bool, true, false, not, ◌&&◌, ◌||◌, Option, none, some, List, [], ◌∷◌,
  ◌++◌, ltb, if◌then◌else◌, between, Text, codes, text_eq, lookup, config_setting, Result, ok, err,
  ◌>>=◌, ◌>>◌, throw_if,
}
use native_dns.Model.{Config}

pub record RuntimeOptions : Type 0 where
  pub clear_dns_cache : Bool
  pub block_tcp53 : Bool
  pub intercept_others : Bool
  pub captive_portal_detection : Bool
  pub ignore_interface_down : Bool
  pub ttl_min : ℕ
  pub ttl_max : ℕ

abbrev pub setting_max : ℕ
setting_max = 2147483647

-- The lambda `value`.
unfoldable pub setting : Config → Text → Option Text
setting config key = elim (lookup key config.settings) [
  | some text ↦ some text
  | none ↦ lookup (codes "yoga.settings." ++ key) config.settings
]

unfoldable pub switch : Text → Result Bool
switch text =
    if text_eq text (codes "0") || text_eq text (codes "false")
    then ok false
    else (if text_eq text (codes "1") || text_eq text (codes "true")
        then ok true
        else err config_setting)

unfoldable pub switch_or_false : Option Text → Result Bool
unfolding switch
switch_or_false none = ok false
switch_or_false (some text) = switch text

-- The lambda `boolean`.
unfoldable pub boolean : Config → Text → Result Bool
unfolding setting switch_or_false
boolean config key = switch_or_false (setting config key)

-- The digits of the whole text, most significant first, none of them missing. A value past 32 bits
-- is out of range for `from_chars`, and past the limit of the caller as well.
unfoldable pub decimal_from : ℕ → Text → Option ℕ
decimal_from value [] = some value
decimal_from value (c ∷ text) =
    let rest = decimal_from (value * 10 + (c - b'0')) text in
    if between b'0' b'9' c then rest else none

unfoldable pub decimal : Text → Option ℕ
unfolding decimal_from
decimal [] = none
decimal (c ∷ text) = decimal_from 0 (c ∷ text)

unfoldable pub bounded : Option ℕ → Result ℕ
bounded none = err config_setting
bounded (some value) = if ltb setting_max value then err config_setting else ok value

unfoldable pub number_or : ℕ → Option Text → Result ℕ
unfolding decimal bounded
number_or fallback none = ok fallback
number_or fallback (some text) = bounded (decimal text)

-- The lambda `number`.
unfoldable pub number : Config → Text → ℕ → Result ℕ
unfolding setting number_or
number config key fallback = number_or fallback (setting config key)

unfoldable pub runtime_options : Config → Result RuntimeOptions
runtime_options config = do
  clear ← boolean config (codes "clearDnsCache")
  block_tcp ← boolean config (codes "blockTcpPort53")
  others ← boolean config (codes "interceptOthers")
  portal ← boolean config (codes "captivePortalDetection")
  ignore ← boolean config (codes "ignore_rule_if_interface_down")
  low ← number config (codes "ttlMin") 0
  high ← number config (codes "ttlMax") setting_max
  throw_if (ltb high low) config_setting
  ok (record {
    clear_dns_cache = clear;
    block_tcp53 = block_tcp;
    intercept_others = others;
    captive_portal_detection = portal;
    ignore_interface_down = ignore;
    ttl_min = low;
    ttl_max = high;
  })
