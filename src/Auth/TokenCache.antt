-- ===== src/Auth/TokenCache.antt =====
-- The OAuth2 tokens that all handlers share (internal/auth/oauth2_tokencache.go and oauth2.go). Times are
-- nanoseconds. The calls of the handlers come one after another, so that singleflight only runs its
-- function; SHA-256 is a parameter, and so is the answer of the token endpoint.
pub mod Keys
pub mod Reuse
use cannectors.Prelude.{
  ℕ, zero, suc, ◌+◌, ◌-◌, ◌*◌, Bool, true, false, not, ◌&&◌, ◌||◌, Option, none, some, List, [],
  ◌∷◌, ◌++◌, Text, is_blank, ltb, Result, ok, err, if◌then◌else◌,
}
use cannectors.Prelude.Int.{ℤ, pos, negsuc, pos_part}
use cannectors.Prelude.Space.{trim_space}
use cannectors.Prelude.Assoc.{lookup, assign, delete}
use cannectors.ErrHandling.Retry.Delay.{wrap}

-- tokenCacheEntry
pub record Entry : Type 0 where
  pub token : Text
  pub expiry : ℕ

-- each part with a zero byte after it
unfoldable pub terminated : List Text → Text
terminated [] = []
terminated (p ∷ ps) = p ++ (0 ∷ terminated ps)

-- tokenCacheKey
unfoldable pub token_cache_key : (Text → Text) → Text → Text → Text → List Text → Text
unfolding terminated
token_cache_key sha token_url client_id client_secret scopes =
    sha (terminated (token_url ∷ client_id ∷ client_secret ∷ scopes))

-- The shared cache, and the keys of the requests sent to a token endpoint, the last one first.
pub record Tokens : Type 0 where
  pub entries : List (Text × Entry)
  pub requests : List Text

abbrev pub valid_at : ℕ → Option Entry → Option Text
valid_at now none = none
valid_at now (some e) = if is_blank e.token || not (ltb now e.expiry) then none else some e.token

-- (tokenCache).get
unfoldable pub get : ℕ → Text → Tokens → Option Text
unfolding lookup
get now key c = valid_at now (lookup key c.entries)

-- (tokenCache).put
unfoldable pub put : Text → Text → ℕ → Tokens → Tokens
unfolding assign
put key token expiry c = record c {
  entries = assign key (record { token = token; expiry = expiry }) c.entries;
}

-- (tokenCache).invalidate, InvalidateToken
unfoldable pub invalidate : Text → Tokens → Tokens
unfolding delete
invalidate key c = record c { entries = delete key c.entries }

-- What the token endpoint comes to: no answer that can be read, a status, a body that cannot be parsed,
-- or access_token and expires_in.
pub data Reply : Type 0 where
  unanswered : Reply
  refused : ℕ → Reply
  garbled : Reply
  granted : Text → ℤ → Reply

pub data TokenError : Type 0 where
  request_failed : TokenError
  bad_status : ℕ → TokenError
  parsing_failed : TokenError
  empty_token : TokenError

-- the time left, a minute before the end: time.Duration wraps, and what is below zero is zero.
unfoldable pub buffered_expiry : ℤ → ℕ
unfolding wrap
buffered_expiry seconds = elim (wrap (pos (pos_part seconds * 1000000000))) [
  | pos d ↦ d - 60000000000
  | negsuc d ↦ pos_part (wrap (negsuc (d + 60000000000)))
]

-- fetchToken at the time `now`
unfoldable pub fetch_token : ℕ → Reply → Result TokenError (Text × ℕ)
unfolding buffered_expiry trim_space
fetch_token now unanswered = err request_failed
fetch_token now (refused status) = err (bad_status status)
fetch_token now garbled = err parsing_failed
fetch_token now (granted token expires_in) =
    if is_blank (trim_space token)
    then err empty_token
    else if ltb 0 (pos_part expires_in)
    then ok (token, now + buffered_expiry expires_in)
    else ok (token, now + 24 * 3600 * 1000000000)

-- sharedTokenCache.put for a token that was fetched
unfoldable pub store :
    Text → Result TokenError (Text × ℕ) → Tokens → Tokens × Result TokenError Text
unfolding put
store key (err e) c = (c, err e)
store key (ok (token, expiry)) c = (put key token expiry c, ok token)

unfoldable pub after_recheck :
    ℕ → Text → Reply → Option Text → Tokens → Tokens × Result TokenError Text
unfolding fetch_token store
after_recheck now key reply (some token) c = (c, ok token)
after_recheck now key reply none c =
    store key (fetch_token now reply) (record c { requests = key ∷ c.requests })

unfoldable pub after_lookup :
    ℕ → ℕ → Text → Reply → Option Text → Tokens → Tokens × Result TokenError Text
unfolding get after_recheck
after_lookup again now key reply (some token) c = (c, ok token)
after_lookup again now key reply none c = after_recheck now key reply (get again key c) c

-- getValidToken, which reads the clock up to three times
unfoldable pub get_valid_token : ℕ → ℕ → ℕ → Text → Reply → Tokens → Tokens × Result TokenError Text
unfolding get after_lookup
get_valid_token first again now key reply c = after_lookup again now key reply (get first key c) c

-- A call of a handler, by its key: ApplyAuth, PreviewAuth, InvalidateToken.
pub data Call : Type 0 where
  applies : ℕ → ℕ → ℕ → Text → Reply → Call
  previews : ℕ → Text → Call
  invalidates : Text → Call

unfoldable pub step : Call → Tokens → Tokens
unfolding get_valid_token invalidate
step (applies first again now key reply) c = (get_valid_token first again now key reply c).0
step (previews now key) c = c
step (invalidates key) c = invalidate key c

unfoldable pub run : List Call → Tokens → Tokens
unfolding step
run [] c = c
run (x ∷ xs) c = run xs (step x c)
