-- ===== src/Tests/Tokens.antt =====
-- Tokens of two clients (internal/auth/oauth2.go), with a hash that is the identity.
use cannectors.Prelude.{ℕ, ◌+◌, ◌≡◌, refl, List, [], ◌∷◌, Text, codes, Result, ok, err}
use cannectors.Prelude.Int.{pos}
use cannectors.Auth.TokenCache.{
  Entry, Tokens, token_cache_key, invalidate, buffered_expiry, fetch_token, store, garbled, granted,
  get_valid_token, Call, applies, previews, invalidates, run,
}
use cannectors.Auth.TokenCache.Keys.{token_cache_key-inj}
use cannectors.Auth.TokenCache.Reuse.{
  Answers, requests_of, get_valid_token-run, get_valid_token-invalidate,
}

abbrev mine : Text
mine = codes "k1"

abbrev theirs : Text
theirs = codes "k2"

abbrev entry : Entry
entry = record { token = codes "t1"; expiry = 1000 }

abbrev cached : Tokens
cached = record { entries = (mine, entry) ∷ []; requests = mine ∷ [] }

abbrev calls : List Call
calls =
    applies 10 11 12 theirs (granted (codes "t2") (pos 61))
    ∷ applies 999 999 999 mine garbled
    ∷ invalidates theirs
    ∷ previews 5000 mine
    ∷ []

-- a minute and a second leave a second
one_second : buffered_expiry (pos 61) ≡ 1000000000
unfolding buffered_expiry
one_second = refl

-- 9300000000 seconds wrap around, and nothing is left
nothing_left : buffered_expiry (pos 9300000000) ≡ 0
unfolding buffered_expiry
nothing_left = refl

token_cache_key-inj_example :
    (codes "u" ≡ codes "u")
    × (codes "i" ≡ codes "i")
    × (codes "s" ≡ codes "s")
    × (codes "a" ∷ [] ≡ codes "a" ∷ [])
unfolding cannectors.Auth.TokenCache.Keys.all_plain
token_cache_key-inj_example =
    token_cache_key-inj (λ s. s) (λ s t e. e) (codes "u") (codes "i") (codes "s") (codes "u")
      (codes "i") (codes "s") (codes "a" ∷ []) (codes "a" ∷ []) refl refl refl

get_valid_token-run_example :
    (get_valid_token 900 900 900 mine garbled (run calls cached)
      ≡ (run calls cached, ok (codes "t1")))
    × (requests_of mine (run calls cached).requests ≡ requests_of mine cached.requests)
unfolding cannectors.Prelude.Assoc.lookup cannectors.Prelude.same
    cannectors.Auth.TokenCache.Reuse.all_quiet
get_valid_token-run_example =
    get_valid_token-run mine entry refl calls cached 900 900 900 garbled refl refl refl

get_valid_token-invalidate_example :
    Answers mine
      (granted (codes "t3") (pos 100))
      cached
      (get_valid_token 20 21 22 mine (granted (codes "t3") (pos 100)) (invalidate mine cached))
get_valid_token-invalidate_example =
    get_valid_token-invalidate mine 20 21 22 (granted (codes "t3") (pos 100)) cached
