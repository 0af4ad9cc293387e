-- ===== src/Auth/TokenCache/Reuse.antt =====
-- How long a token is used (internal/auth/oauth2.go: getValidToken, InvalidateToken): until it expires or is
-- invalidated, by all handlers with the same credentials.
use mathlib.Core.Path.{subst}
use cannectors.Prelude.{
  ℕ, ◌≡◌, refl, sym, ap, ◌∙◌, arith, Bool, true, false, not, ◌&&◌, ◌||◌, Bool-cases, Option, none,
  some, List, [], ◌∷◌, Text, same, same_iff, same_refl, is_blank, ltb, Result, ok, err,
  if◌then◌else◌, inl, inr,
}
use cannectors.Prelude.Space.{trim_space}
use cannectors.Prelude.Assoc.{lookup, delete, lookup-assign, lookup-delete}
use cannectors.Auth.TokenCache.{
  Entry, Tokens, valid_at, get, put, invalidate, Reply, unanswered, refused, garbled, granted,
  request_failed, bad_status, parsing_failed, empty_token, TokenError, fetch_token, store,
  after_recheck, after_lookup, get_valid_token, Call, applies, previews, invalidates, step, run,
}

-- the requests for a key
unfoldable pub requests_of : Text → List Text → List Text
unfolding same
requests_of k [] = []
requests_of k (j ∷ js) = if same j k then j ∷ requests_of k js else requests_of k js

-- The call neither invalidates the key nor applies it at `expiry` or later.
unfoldable pub is_quiet : Text → ℕ → Call → Bool
unfolding same
is_quiet k expiry (applies first again now j reply) = not (same j k) || ltb first expiry
is_quiet k expiry (previews now j) = true
is_quiet k expiry (invalidates j) = not (same j k)

unfoldable pub all_quiet : Text → ℕ → List Call → Bool
unfolding is_quiet
all_quiet k expiry [] = true
all_quiet k expiry (x ∷ xs) = is_quiet k expiry x && all_quiet k expiry xs

-- The entry of the key and the requests for it are the same.
abbrev pub AgreesOn : Text → Tokens → Tokens → Type 0
AgreesOn k c d =
    (lookup k d.entries ≡ lookup k c.entries)
    × (requests_of k d.requests ≡ requests_of k c.requests)

module _ (k j : Text) (other : same j k ≡ false) where
  store-AgreesOn : (r : Result TokenError (Text × ℕ)) (c : Tokens) → AgreesOn k c (store j r c).0
  unfolding store put
  store-AgreesOn (err e) c = (refl, refl)
  store-AgreesOn (ok (t, x)) c = (
    lookup-assign j k (record { token = t; expiry = x }) c.entries
        ∙ ap (λ b. if b then some (record { token = t; expiry = x }) else lookup k c.entries) other,
    refl,
  )

  after_recheck-AgreesOn :
      (now : ℕ) (reply : Reply) (o : Option Text) (c : Tokens)
      → AgreesOn k c (after_recheck now j reply o c).0
  unfolding after_recheck requests_of
  after_recheck-AgreesOn now reply (some t) c = (refl, refl)
  after_recheck-AgreesOn now reply none c =
      let (a, b) =
        store-AgreesOn (fetch_token now reply) (record c { requests = j ∷ c.requests }) in
      (a, b ∙ ap (λ b. if b then j ∷ requests_of k c.requests else requests_of k c.requests) other)

  after_lookup-AgreesOn :
      (again now : ℕ) (reply : Reply) (o : Option Text) (c : Tokens)
      → AgreesOn k c (after_lookup again now j reply o c).0
  unfolding after_lookup
  after_lookup-AgreesOn again now reply (some t) c = (refl, refl)
  after_lookup-AgreesOn again now reply none c = after_recheck-AgreesOn now reply (get again j c) c

module _ (k : Text) (e : Entry) (usable : is_blank e.token ≡ false) where
  get_before :
      (now : ℕ) (c : Tokens)
      → lookup k c.entries ≡ some e
      → ltb now e.expiry ≡ true
      → get now k c ≡ some e.token
  unfolding get
  get_before now c h t = ap (λ o. valid_at now o) h ∙ ground (arith, usable, t)

  get_valid_token_before :
      (first again now : ℕ) (reply : Reply) (c : Tokens)
      → lookup k c.entries ≡ some e
      → ltb first e.expiry ≡ true
      → get_valid_token first again now k reply c ≡ (c, ok e.token)
  unfolding get_valid_token after_lookup
  get_valid_token_before first again now reply c h t =
      ap (λ o. after_lookup again now k reply o c) (get_before first c h t)

  applies-AgreesOn :
      (first again now : ℕ) (j : Text) (reply : Reply) (c : Tokens)
      → lookup k c.entries ≡ some e
      → is_quiet k e.expiry (applies first again now j reply) ≡ true
      → AgreesOn k c (get_valid_token first again now j reply c).0
  unfolding is_quiet get_valid_token
  applies-AgreesOn first again now j reply c h q = elim (Bool-cases (same j k)) [
    | inl eq ↦
        let p : k ≡ j = sym ((same_iff j k).0 eq) in
        subst (λ i. AgreesOn k c (get_valid_token first again now i reply c).0) p
          (subst (λ d. AgreesOn k c d.0)
            (sym (get_valid_token_before first again now reply c h (ground (arith, eq, q))))
            (refl, refl))
    | inr ne ↦ after_lookup-AgreesOn k j ne again now reply (get first j c) c
  ]

  step-AgreesOn :
      (x : Call) (c : Tokens)
      → lookup k c.entries ≡ some e
      → is_quiet k e.expiry x ≡ true
      → AgreesOn k c (step x c)
  unfolding step invalidate is_quiet
  step-AgreesOn (applies first again now j reply) c h q =
      applies-AgreesOn first again now j reply c h q
  step-AgreesOn (previews now j) c h q = (refl, refl)
  step-AgreesOn (invalidates j) c h q =
      let other : same j k ≡ false = ground (arith, q) in
      (lookup-delete j k c.entries ∙ ap (λ b. if b then none else lookup k c.entries) other, refl)

  run-AgreesOn :
      (xs : List Call) (c : Tokens)
      → lookup k c.entries ≡ some e
      → all_quiet k e.expiry xs ≡ true
      → AgreesOn k c (run xs c)
  unfolding run all_quiet
  run-AgreesOn [] c h q = (refl, refl)
  run-AgreesOn (x ∷ xs) c h q =
      let (a, b) = step-AgreesOn x c h (ground (arith, q)) in
      let (a', b') = run-AgreesOn xs (step x c) (a ∙ h) (ground (arith, q)) in (a' ∙ a, b' ∙ b)

  -- A token that is in the cache and is not empty is used until it expires: after any calls of any handlers,
  -- none of which invalidated it or applied its credentials at its expiry or later, a call with these
  -- credentials before the expiry gets it and changes nothing, and no token was requested for them.
  pub get_valid_token-run :
      (xs : List Call) (c : Tokens) (first again now : ℕ) (reply : Reply)
      → lookup k c.entries ≡ some e
      → all_quiet k e.expiry xs ≡ true
      → ltb first e.expiry ≡ true
      → (get_valid_token first again now k reply (run xs c) ≡ (run xs c, ok e.token))
        × (requests_of k (run xs c).requests ≡ requests_of k c.requests)
  get_valid_token-run xs c first again now reply h q t =
      let (a, b) = run-AgreesOn xs c h q in
      (get_valid_token_before first again now reply (run xs c) (a ∙ h) t, b)

get-invalidate : (k : Text) (now : ℕ) (c : Tokens) → get now k (invalidate k c) ≡ none
unfolding get invalidate
get-invalidate k now c =
    ap (λ o. valid_at now o)
      (lookup-delete k k c.entries ∙ ap (λ b. if b then none else lookup k c.entries) (same_refl k))

-- what a reply gives the caller: the token as the endpoint wrote it, or the failure
abbrev pub answer_of : Reply → Result TokenError Text
answer_of unanswered = err request_failed
answer_of (refused status) = err (bad_status status)
answer_of garbled = err parsing_failed
answer_of (granted token expires_in) =
    if is_blank (trim_space token) then err empty_token else ok token

-- the token that is in the cache after that
abbrev pub granted_token : Reply → Option Text
granted_token (granted token expires_in) = if is_blank (trim_space token) then none else some token
granted_token reply = none

abbrev pub token_of : Option Entry → Option Text
token_of none = none
token_of (some e) = some e.token

-- What a call comes to that gets `reply` from the token endpoint, from the cache `c`.
abbrev pub Answers : Text → Reply → Tokens → Tokens × Result TokenError Text → Type 0
Answers k reply c p =
    (p.1 ≡ answer_of reply)
    × (token_of (lookup k p.0.entries) ≡ granted_token reply)
    × (p.0.requests ≡ k ∷ c.requests)

store-granted :
    (k token : Text) (expiry : ℕ) (c : Tokens)
    → token_of (lookup k (store k (ok (token, expiry)) c).0.entries) ≡ some token
unfolding store put
store-granted k token expiry c =
    let e : Entry = record { token = token; expiry = expiry } in
    ap token_of (
      lookup-assign k k e c.entries
      ∙ ap (λ b. if b then some e else lookup k c.entries) (same_refl k))

store_granted_token :
    (k token : Text) (blank dated : Bool) (x y : ℕ) (c : Tokens)
    → lookup k c.entries ≡ none
    → let p =
        store k
          (if blank then err empty_token else if dated then ok (token, x) else ok (token, y))
          (record c { requests = k ∷ c.requests }) in
      (p.1 ≡ (if blank then err empty_token else ok token))
      × (token_of (lookup k p.0.entries) ≡ (if blank then none else some token))
      × (p.0.requests ≡ k ∷ c.requests)
unfolding store put
store_granted_token k token true dated x y c h = (refl, ap token_of h, refl)
store_granted_token k token false true x y c h =
    (refl, store-granted k token x (record c { requests = k ∷ c.requests }), refl)
store_granted_token k token false false x y c h =
    (refl, store-granted k token y (record c { requests = k ∷ c.requests }), refl)

store-Answers :
    (k : Text) (now : ℕ) (reply : Reply) (c : Tokens)
    → lookup k c.entries ≡ none
    → Answers k reply c (store k (fetch_token now reply) (record c { requests = k ∷ c.requests }))
unfolding fetch_token store put
store-Answers k now unanswered c h = (refl, ap token_of h, refl)
store-Answers k now (refused status) c h = (refl, ap token_of h, refl)
store-Answers k now garbled c h = (refl, ap token_of h, refl)
store-Answers k now (granted token expires_in) c h =
    store_granted_token k token (is_blank (trim_space token)) _ _ _ c h

-- Once a handler has invalidated the token of its credentials, the next call with the same credentials,
-- from whatever handler, sends one request and gets the token that the endpoint grants, or the failure that
-- its reply is, an empty token included; the old token is not in the cache any more, and the new one is, if
-- there is one.
pub get_valid_token-invalidate :
    (k : Text) (first again now : ℕ) (reply : Reply) (c : Tokens)
    → Answers k reply c (get_valid_token first again now k reply (invalidate k c))
unfolding get_valid_token after_lookup after_recheck invalidate
get_valid_token-invalidate k first again now reply c =
    let fetched : get_valid_token first again now k reply (invalidate k c)
        ≡ store k (fetch_token now reply)
            (record c { entries = delete k c.entries; requests = k ∷ c.requests }) =
      ap (λ o. after_lookup again now k reply o (invalidate k c)) (get-invalidate k first c)
      ∙ ap (λ o. after_recheck now k reply o (invalidate k c)) (get-invalidate k again c) in
    subst (Answers k reply c) (sym fetched) (
      store-Answers k now reply (record c { entries = delete k c.entries })
        (lookup-delete k k c.entries
          ∙ ap (λ b. if b then none else lookup k c.entries) (same_refl k)))
