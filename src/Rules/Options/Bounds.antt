-- ===== src/Rules/Options/Bounds.antt =====
-- NativeDNS.Core/src/config.cpp: what holds of the options that `runtime_options` accepts.
use native_dns.Prelude.{
  ℕ, ◌≤◌, ◌||◌, Option, none, some, ltb, if_cases, Text, codes, Safe, Safe-bind, Safe-throw_if,
  arith, text_eq,
}
use native_dns.Model.{Config}
use native_dns.Rules.Options.{
  RuntimeOptions, setting_max, setting, switch, switch_or_false, boolean, decimal, bounded,
  number_or, number, runtime_options,
}

switch-Safe : (text : Text) → Safe (λ _. Unit) (switch text)
unfolding switch
switch-Safe text =
    if_cases (Safe (λ _. Unit)) (text_eq text (codes "0") || text_eq text (codes "false")) (λ _. tt)
      λ _.
        if_cases (Safe (λ _. Unit)) (text_eq text (codes "1") || text_eq text (codes "true"))
          (λ _. tt) (λ _. tt)

switch_or_false-Safe : (text : Option Text) → Safe (λ _. Unit) (switch_or_false text)
unfolding switch_or_false
switch_or_false-Safe none = tt
switch_or_false-Safe (some text) = switch-Safe text

boolean-Safe : (config : Config) (key : Text) → Safe (λ _. Unit) (boolean config key)
unfolding boolean
boolean-Safe config key = switch_or_false-Safe (setting config key)

bounded-Safe : (value : Option ℕ) → Safe (λ n. n ≤ setting_max) (bounded value)
unfolding bounded
bounded-Safe none = tt
bounded-Safe (some value) =
    if_cases (Safe (λ n. n ≤ setting_max)) (ltb setting_max value) (λ _. tt) (λ e. ground arith)

number_or-Safe :
    (fallback : ℕ) (text : Option Text)
    → fallback ≤ setting_max
    → Safe (λ n. n ≤ setting_max) (number_or fallback text)
unfolding number_or
number_or-Safe fallback none h = h
number_or-Safe fallback (some text) h = bounded-Safe (decimal text)

number-Safe :
    (config : Config) (key : Text) (fallback : ℕ)
    → fallback ≤ setting_max
    → Safe (λ n. n ≤ setting_max) (number config key fallback)
unfolding number
number-Safe config key fallback h = number_or-Safe fallback (setting config key) h

-- The lifetimes that a configuration asks for are an interval of 31 bit numbers, so that `clamp`
-- has its bounds in order.
pub record IsBounded (options : RuntimeOptions) : Type 0 where
  pub ordered : options.ttl_min ≤ options.ttl_max
  pub bounded_max : options.ttl_max ≤ setting_max

-- Reading the settings of any configuration refuses them or gives options whose lifetimes are an
-- interval within 31 bits.
pub runtime_options-IsBounded : (config : Config) → Safe IsBounded (runtime_options config)
unfolding runtime_options
runtime_options-IsBounded config =
    Safe-bind (λ _. Unit) IsBounded _ _ (boolean-Safe config (codes "clearDnsCache"))
      λ _ _.
        Safe-bind (λ _. Unit) IsBounded _ _ (boolean-Safe config (codes "blockTcpPort53"))
          λ _ _.
            Safe-bind (λ _. Unit) IsBounded _ _ (boolean-Safe config (codes "interceptOthers"))
              λ _ _.
                Safe-bind (λ _. Unit) IsBounded _ _
                  (boolean-Safe config (codes "captivePortalDetection"))
                  λ _ _.
                    Safe-bind (λ _. Unit) IsBounded _ _
                      (boolean-Safe config (codes "ignore_rule_if_interface_down"))
                      λ _ _.
                        Safe-bind (λ n. n ≤ setting_max) IsBounded _ _
                          (number-Safe config (codes "ttlMin") 0 (omega arith))
                          λ low _.
                            Safe-bind (λ n. n ≤ setting_max) IsBounded _ _
                              (number-Safe config (codes "ttlMax") setting_max (omega arith))
                              λ high top.
                                Safe-throw_if IsBounded (ltb high low) _ _
                                  λ e. record { ordered = ground arith; bounded_max = top }
