-- ===== src/Auth/TokenCache/Keys.antt =====
-- The keys of the token cache (internal/auth/oauth2_tokencache.go: tokenCacheKey).
use cannectors.Prelude.{
  ◌≡◌, refl, sym, arith, Bool, true, not, ◌&&◌, List, [], ◌∷◌, ◌++◌, Text, ◌==◌,
}
use cannectors.Auth.TokenCache.{terminated, token_cache_key}

-- no zero byte
unfoldable pub is_plain : Text → Bool
is_plain [] = true
is_plain (c ∷ s) = not (c == 0) && is_plain s

unfoldable pub all_plain : List Text → Bool
unfolding is_plain
all_plain [] = true
all_plain (p ∷ ps) = is_plain p && all_plain ps

not_empty : {A : Type 0} (q x : Text) → q ++ (0 ∷ x) ≡ [] → A
not_empty [] x e = absurd cc
not_empty (d ∷ q) x e = absurd cc

terminated_split :
    (p q x y : Text)
    → is_plain p ≡ true
    → is_plain q ≡ true
    → p ++ (0 ∷ x) ≡ q ++ (0 ∷ y)
    → (p ≡ q) × (x ≡ y)
unfolding is_plain
terminated_split [] [] x y hp hq e = (refl, cc)
terminated_split [] (d ∷ q) x y hp hq e = let z : 0 ≡ d = cc in ground (arith, hq, z)
terminated_split (c ∷ p) [] x y hp hq e = let z : c ≡ 0 = cc in ground (arith, hp, z)
terminated_split (c ∷ p) (d ∷ q) x y hp hq e =
    let (h, t) = terminated_split p q x y (ground (arith, hp)) (ground (arith, hq)) cc in (cc, t)

terminated-inj :
    (ps qs : List Text)
    → all_plain ps ≡ true
    → all_plain qs ≡ true
    → terminated ps ≡ terminated qs
    → ps ≡ qs
unfolding terminated all_plain
terminated-inj [] [] hp hq e = refl
terminated-inj [] (q ∷ qs) hp hq e = not_empty q (terminated qs) (sym e)
terminated-inj (p ∷ ps) [] hp hq e = not_empty p (terminated ps) e
terminated-inj (p ∷ ps) (q ∷ qs) hp hq e =
    let (h, t) =
      terminated_split p q (terminated ps) (terminated qs) (ground (arith, hp)) (ground (arith, hq))
        e in
    let u = terminated-inj ps qs (ground (arith, hp)) (ground (arith, hq)) t in cc

-- Where the hash has no collisions and no part has a zero byte, equal keys are those of equal credentials:
-- the same token URL, client, secret and scopes, these in the same order.
pub token_cache_key-inj :
    (sha : Text → Text)
    → ((s t : Text) → sha s ≡ sha t → s ≡ t)
    → (u i s v j t : Text) (scopes others : List Text) → all_plain (u ∷ i ∷ s ∷ scopes) ≡ true
    → all_plain (v ∷ j ∷ t ∷ others) ≡ true
    → token_cache_key sha u i s scopes ≡ token_cache_key sha v j t others
    → (u ≡ v) × (i ≡ j) × (s ≡ t) × (scopes ≡ others)
unfolding token_cache_key
token_cache_key-inj sha inj u i s v j t scopes others hp hq e =
    let h = terminated-inj (u ∷ i ∷ s ∷ scopes) (v ∷ j ∷ t ∷ others) hp hq (inj _ _ e) in
    (cc, cc, cc, cc)
