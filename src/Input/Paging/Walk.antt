-- ===== src/Input/Paging/Walk.antt =====
-- The ends of the paging loops (internal/modules/input/http_polling_pagination.go): the pages, the offsets and
-- the rounds come to their bound.
use mathlib.Core.Path.{subst}
use cannectors.Prelude.{
  ℕ, zero, suc, ◌+◌, ◌*◌, ◌^◌, ◌≡◌, ◌≤◌, ◌<◌, refl, sym, ap, ◌∙◌, arith, Bool, true, false, some,
  List, [], ◌++◌, length, Text, codes, same, leb, ltb, if-cases, Result, ok, err,
}
use cannectors.Prelude.Int.{ℤ, pos, negsuc, pos_part, neg_part, ltb_ℤ, eq_ℤ}
use cannectors.ErrHandling.Retry.Delay.{wrap, minus}
use cannectors.Value.{Fields}
use cannectors.Input.Response.{PagingError, unknown_type, Params, Server}
use cannectors.Input.Paging.{
  max_pagination_pages, PaginationConfig, Fetched, or_go_on, ended, page_round, offset_round,
  cursor_round, difference, offset_bound, next_offset, limit_or_default, fetch_page_with_meta,
  page_params, page_loop, fetch_offset_with_meta, offset_params, offset_loop,
  fetch_cursor_with_meta, cursor_params, cursor_loop, offset_based, fetch_with_pagination,
}

-- It has a result, after at most so many rounds.
abbrev pub EndsWithin : ℕ → Fetched → Type 0
EndsWithin k f =
    ((r : Result PagingError (List Fields)) × (f.result ≡ some r)) × (length f.rounds ≤ k)

-- A thousand limits fit an int.
abbrev pub Fits : ℤ → Type 0
Fits limit = max_pagination_pages * (pos_part limit + neg_part limit) < 2 ^ 63

ended-EndsWithin : (k : ℕ) (all : List Fields) → EndsWithin k (ended all)
ended-EndsWithin k all = ((ok all, refl), omega arith)

or_go_on-EndsWithin :
    (b : Bool) (params : Params) (all : List Fields) (rest : List Fields → Fetched) (k : ℕ)
    → ((more : List Fields) → EndsWithin k (rest more))
    → EndsWithin (suc k) (or_go_on b params all rest)
or_go_on-EndsWithin true params all rest k h = ((ok all, refl), omega arith)
or_go_on-EndsWithin false params all rest k h = ((h all).0, omega (arith, (h all).1))

page_round-EndsWithin :
    (page : ℕ) (params : Params) (all : List Fields) (answer : Result PagingError (List Fields × ℤ))
    (rest : List Fields → Fetched) (k : ℕ)
    → ((more : List Fields) → EndsWithin k (rest more))
    → EndsWithin (suc k) (page_round page params all answer rest)
unfolding page_round
page_round-EndsWithin page params all (err e) rest k h = ((err e, refl), omega arith)
page_round-EndsWithin page params all (ok (rs, total)) rest k h =
    or_go_on-EndsWithin _ params (all ++ rs) rest k h

offset_round-EndsWithin :
    (limit : ℤ) (params : Params) (all : List Fields)
    (answer : Result PagingError (List Fields × ℤ)) (rest : List Fields → Fetched) (k : ℕ)
    → ((more : List Fields) → EndsWithin k (rest more))
    → EndsWithin (suc k) (offset_round limit params all answer rest)
unfolding offset_round
offset_round-EndsWithin limit params all (err e) rest k h = ((err e, refl), omega arith)
offset_round-EndsWithin limit params all (ok (rs, total)) rest k h =
    or_go_on-EndsWithin _ params (all ++ rs) rest k h

cursor_round-EndsWithin :
    (params : Params) (all : List Fields) (answer : Result PagingError (List Fields × Text))
    (rest : Text → List Fields → Fetched) (k : ℕ)
    → ((next : Text) (more : List Fields) → EndsWithin k (rest next more))
    → EndsWithin (suc k) (cursor_round params all answer rest)
unfolding cursor_round
cursor_round-EndsWithin params all (err e) rest k h = ((err e, refl), omega arith)
cursor_round-EndsWithin params all (ok (rs, next)) rest k h =
    or_go_on-EndsWithin _ params (all ++ rs) (rest next) k (h next)

page_loop-EndsWithin :
    (server : Server) (p : PaginationConfig) (d : Text) (fuel k page : ℕ) (all : List Fields)
    → page + k ≡ suc max_pagination_pages
    → k < fuel
    → EndsWithin k (page_loop server p d fuel page all)
unfolding page_loop
page_loop-EndsWithin server p d zero k page all e h = absurd (omega arith)
page_loop-EndsWithin server p d (suc fuel) zero page all e h =
    if-cases (EndsWithin zero) (leb page max_pagination_pages) _ _
      (λ t. absurd (ground (arith, t, e))) (λ _. ended-EndsWithin zero all)
page_loop-EndsWithin server p d (suc fuel) (suc k) page all e h =
    if-cases (EndsWithin (suc k)) (leb page max_pagination_pages) _ _
      (λ _.
        page_round-EndsWithin page (page_params p page) all (fetch_page_with_meta server p d page) _
          k
          (λ more.
            page_loop-EndsWithin server p d fuel k (page + 1) more (omega (arith, e))
              (omega (arith, h))))
      (λ _. ended-EndsWithin (suc k) all)

cursor_loop-EndsWithin :
    (server : Server) (p : PaginationConfig) (d : Text) (fuel k i : ℕ) (cursor : Text)
    (all : List Fields)
    → i + k ≡ max_pagination_pages
    → k < fuel
    → EndsWithin k (cursor_loop server p d fuel i cursor all)
unfolding cursor_loop
cursor_loop-EndsWithin server p d zero k i cursor all e h = absurd (omega arith)
cursor_loop-EndsWithin server p d (suc fuel) zero i cursor all e h =
    if-cases (EndsWithin zero) (ltb i max_pagination_pages) _ _ (λ t. absurd (ground (arith, t, e)))
      (λ _. ended-EndsWithin zero all)
cursor_loop-EndsWithin server p d (suc fuel) (suc k) i cursor all e h =
    if-cases (EndsWithin (suc k)) (ltb i max_pagination_pages) _ _
      (λ _.
        cursor_round-EndsWithin (cursor_params p cursor) all
          (fetch_cursor_with_meta server p d i cursor) _ k
          (λ next more.
            cursor_loop-EndsWithin server p d fuel k (i + 1) next more (omega (arith, e))
              (omega (arith, h))))
      (λ _. ended-EndsWithin (suc k) all)

wrap_small : (n : ℕ) → n < 2 ^ 63 → wrap (pos n) ≡ pos n
unfolding wrap
wrap_small n h = ground (arith, h)

wrap-minus : (m : ℕ) → m < 2 ^ 63 → wrap (minus m) ≡ minus m
unfolding wrap
wrap-minus zero h = ground arith
wrap-minus (suc m) h = ground (arith, h)

difference-zero : (m : ℕ) → difference m 0 ≡ pos m
difference-zero m = ground arith

-- the bound and the offsets for a limit that fits
pub offset_bound-pos :
    (size : ℕ) → Fits (pos size) → offset_bound (pos size) ≡ pos (max_pagination_pages * size)
unfolding offset_bound
offset_bound-pos size h =
    ap wrap (difference-zero (max_pagination_pages * size)) ∙ wrap_small _ (omega (arith, h))

pub next_offset-pos :
    (i k size : ℕ)
    → i + suc k ≡ max_pagination_pages
    → Fits (pos size)
    → next_offset (pos (i * size)) (pos size) ≡ pos ((i + 1) * size)
unfolding next_offset
next_offset-pos i k size e h =
    let whole : max_pagination_pages * size ≡ (i + suc k) * size = ap (λ m. m * size) (sym e) in
    ap wrap (difference-zero (i * size + size))
    ∙ wrap_small (i * size + size) (omega (arith, whole, h))
    ∙ ap pos (omega arith)

pub past_end :
    (size i : ℕ)
    → Fits (pos size)
    → i ≡ max_pagination_pages
    → ltb_ℤ (pos (i * size)) (offset_bound (pos size)) ≡ true
    → ⊥
past_end size i fits e t =
    let below : ltb_ℤ (pos (i * size)) (pos (max_pagination_pages * size)) ≡ true =
      ap (λ b. ltb_ℤ (pos (i * size)) b) (sym (offset_bound-pos size fits)) ∙ t in
    let there : i * size ≡ max_pagination_pages * size = ap (λ m. m * size) e in
    ground (arith, below, there)

offset_loop-EndsWithin :
    (server : Server) (p : PaginationConfig) (d : Text) (size fuel k i : ℕ) (all : List Fields)
    → Fits (pos size)
    → i + k ≡ max_pagination_pages
    → k < fuel
    → EndsWithin k (offset_loop server p d (pos size) fuel i (pos (i * size)) all)
unfolding offset_loop
offset_loop-EndsWithin server p d size zero k i all fits e h = absurd (omega arith)
offset_loop-EndsWithin server p d size (suc fuel) zero i all fits e h =
    if-cases (EndsWithin zero) (ltb_ℤ (pos (i * size)) (offset_bound (pos size))) _ _
      (λ t. absurd (past_end size i fits (omega (arith, e)) t)) (λ _. ended-EndsWithin zero all)
offset_loop-EndsWithin server p d size (suc fuel) (suc k) i all fits e h =
    if-cases (EndsWithin (suc k)) (ltb_ℤ (pos (i * size)) (offset_bound (pos size))) _ _
      (λ _.
        offset_round-EndsWithin (pos size) (offset_params p (pos size) (pos (i * size))) all
          (fetch_offset_with_meta server p d (pos size) i (pos (i * size))) _ k
          (λ more.
            subst (λ o. EndsWithin k (offset_loop server p d (pos size) fuel (i + 1) o more))
              (sym (next_offset-pos i k size e fits))
              (offset_loop-EndsWithin server p d size fuel k (i + 1) more fits (omega (arith, e))
                (omega (arith, h)))))
      (λ _. ended-EndsWithin (suc k) all)

-- A loop over positive offsets from the start, and one with a negative limit, which makes no request.
offset_loop_from_start :
    (server : Server) (p : PaginationConfig) (d : Text) (size fuel : ℕ)
    → Fits (pos size)
    → max_pagination_pages < fuel
    → EndsWithin max_pagination_pages (offset_loop server p d (pos size) fuel 0 (pos 0) [])
offset_loop_from_start server p d size fuel fits h =
    let start : 0 * size ≡ 0 = omega arith in
    subst
      (λ o. EndsWithin max_pagination_pages (offset_loop server p d (pos size) fuel 0 (pos o) []))
      start (offset_loop-EndsWithin server p d size fuel max_pagination_pages 0 [] fits refl h)

not_positive : (m : ℕ) → ltb_ℤ (pos 0) (minus m) ≡ false
not_positive zero = refl
not_positive (suc m) = ground arith

offset_bound-negsuc : (n : ℕ) → Fits (negsuc n) → ltb_ℤ (pos 0) (offset_bound (negsuc n)) ≡ false
unfolding offset_bound
offset_bound-negsuc n fits =
    let below : difference (max_pagination_pages * 0) (max_pagination_pages * suc n)
        ≡ minus (max_pagination_pages * suc n) =
      ground arith in
    ap (λ b. ltb_ℤ (pos 0) (wrap b)) below
    ∙ ap (λ b. ltb_ℤ (pos 0) b) (wrap-minus (max_pagination_pages * suc n) (omega (arith, fits)))
    ∙ not_positive (max_pagination_pages * suc n)

offset_loop_negative :
    (server : Server) (p : PaginationConfig) (d : Text) (n fuel k : ℕ)
    → Fits (negsuc n)
    → k < fuel
    → EndsWithin k (offset_loop server p d (negsuc n) fuel 0 (pos 0) [])
unfolding offset_loop
offset_loop_negative server p d n zero k fits h = absurd (omega arith)
offset_loop_negative server p d n (suc fuel) k fits h =
    if-cases (EndsWithin k) (ltb_ℤ (pos 0) (offset_bound (negsuc n))) _ _
      (λ t. let none_below = offset_bound-negsuc n fits in absurd cc) (λ _. ended-EndsWithin k [])

offset_based-EndsWithin :
    (server : Server) (p : PaginationConfig) (d : Text) (fuel : ℕ) (limit : ℤ)
    → Fits limit
    → max_pagination_pages < fuel
    → EndsWithin max_pagination_pages
        (offset_loop server p d (limit_or_default limit) fuel 0 (pos 0) [])
offset_based-EndsWithin server p d fuel (pos n) fits h =
    if-cases (λ l. EndsWithin max_pagination_pages (offset_loop server p d l fuel 0 (pos 0) []))
      (eq_ℤ (pos n) (pos 0)) (pos 100) (pos n)
      (λ _. offset_loop_from_start server p d 100 fuel (omega arith) h)
      (λ _. offset_loop_from_start server p d n fuel fits h)
offset_based-EndsWithin server p d fuel (negsuc n) fits h =
    if-cases (λ l. EndsWithin max_pagination_pages (offset_loop server p d l fuel 0 (pos 0) []))
      (eq_ℤ (negsuc n) (pos 0)) (pos 100) (negsuc n)
      (λ _. offset_loop_from_start server p d 100 fuel (omega arith) h)
      (λ _. offset_loop_negative server p d n fuel max_pagination_pages fits h)

-- Whatever the server answers, a fetch with paging comes to an end, with a result, after at most
-- `max_pagination_pages` rounds, if a thousand limits fit an int: with more fuel than that it does not run
-- out, so that the page, the offset or the number of rounds stops the loop.
pub fetch_with_pagination-EndsWithin :
    (server : Server) (p : PaginationConfig) (data_field : Text) (fuel : ℕ)
    → Fits p.limit
    → max_pagination_pages < fuel
    → EndsWithin max_pagination_pages (fetch_with_pagination server p data_field fuel)
unfolding fetch_with_pagination offset_based
fetch_with_pagination-EndsWithin server p d fuel fits h =
    if-cases (EndsWithin max_pagination_pages) (same p.type (codes "page")) _ _
      (λ _. page_loop-EndsWithin server p d fuel max_pagination_pages 1 [] refl h)
      (λ _.
        if-cases (EndsWithin max_pagination_pages) (same p.type (codes "offset")) _ _
          (λ _. offset_based-EndsWithin server p d fuel p.limit fits h)
          (λ _.
            if-cases (EndsWithin max_pagination_pages) (same p.type (codes "cursor")) _ _
              (λ _. cursor_loop-EndsWithin server p d fuel max_pagination_pages 0 [] [] refl h)
              (λ _. ((err unknown_type, refl), omega arith))))
