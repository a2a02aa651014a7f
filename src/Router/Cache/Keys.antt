-- ===== src/Router/Cache/Keys.antt =====
-- NativeDNS.Core/src/router.cpp: what the key of `exchange_cached` tells apart.
use native_dns.Prelude.{
  Bool, ◌≡◌, sym, ◌∙◌, List, [], ◌∷◌, ◌++◌, ltb, length, drop, ok, ok-injective, passed,
}
use native_dns.Model.{Server}
use native_dns.Dns.Wire.{Packet}
use native_dns.Router.Cache.{key_prefix, cache_key}

tail-eq {ℓ} : {A : Type ℓ} {x : A} {xs ys : List A} → x ∷ xs ≡ x ∷ ys → xs ≡ ys
tail-eq h = cc

append-cancel {ℓ} : {A : Type ℓ} (front a b : List A) → front ++ a ≡ front ++ b → a ≡ b
append-cancel [] a b e = e
append-cancel (x ∷ front) a b e = append-cancel front a b (tail-eq e)

cache_key-lem :
    (configured : Bool) (primary : Server) (request key : Packet)
    → cache_key configured primary request ≡ ok key
    → key ≡ key_prefix configured primary ++ 0 ∷ 0 ∷ drop 2 request
unfolding cache_key
cache_key-lem configured primary request key e =
    let (long, h) = passed (ltb (length request) 2) _ _ e in sym (ok-injective h)

-- Two requests that have the same key, with the same server and the same choice of prefix, are equal
-- from their third byte on: they differ at most in their identifiers.
pub cache_key-drop :
    (configured : Bool) (primary : Server) (a b key : Packet)
    → cache_key configured primary a ≡ ok key
    → cache_key configured primary b ≡ ok key
    → drop 2 a ≡ drop 2 b
cache_key-drop configured primary a b key ha hb =
    let same =
      sym (cache_key-lem configured primary a key ha) ∙ cache_key-lem configured primary b key hb in
    append-cancel (0 ∷ 0 ∷ []) (drop 2 a) (drop 2 b)
      (append-cancel (key_prefix configured primary) _ _ same)
