-- ===== src/Input/Paging.antt =====
-- The paging of the httpPolling input (internal/modules/input/http_polling_pagination.go). A request is its query parameters; what it answers,
-- retries and JSON decoding included, is a function of the number of requests before it and of these. The loops
-- run on fuel; without an end in it there is no result.
pub mod Walk
pub mod Segments
pub mod Slices
use cannectors.Prelude.{
  ℕ, zero, suc, ◌+◌, ◌-◌, ◌*◌, Bool, true, false, not, ◌&&◌, ◌||◌, Option, none, some, List, [],
  ◌∷◌, ◌++◌, length, Text, codes, same, is_blank, ltb, leb, ◌==◌, if◌then◌else◌, Result, ok, err,
}
use cannectors.Prelude.Int.{ℤ, pos, negsuc, pos_part, neg_part, ltb_ℤ, leb_ℤ, eq_ℤ}
use cannectors.ErrHandling.Retry.Delay.{wrap, minus}
use cannectors.Prelude.Decimal.{itoa_ℕ, itoa}
use cannectors.Prelude.Assoc.{assign}
use cannectors.Value.{Fields}
use cannectors.Input.Response.{
  PagingError, unknown_type, bad_url, Params, Server, extract_int_field, extract_string_field,
  extract_records_from_object,
}

-- maxPaginationPages
abbrev pub max_pagination_pages : ℕ
max_pagination_pages = 1000

-- PaginationConfig
pub record PaginationConfig : Type 0 where
  pub type : Text
  pub param : Text
  pub limit_param : Text
  pub limit : ℤ
  pub total_pages_field : Text
  pub total_field : Text
  pub next_cursor_field : Text

-- paginationLimitParams
unfoldable pub pagination_limit_params : PaginationConfig → Params
unfolding itoa
pagination_limit_params p =
    if not (is_blank p.limit_param) && ltb_ℤ (pos 0) p.limit
    then (p.limit_param, itoa p.limit) ∷ []
    else []

-- buildPaginatedURLMultiFrom and fetchAndParseObject: the request number `n`
unfoldable pub fetch_object : Server → ℕ → Params → Result PagingError Fields
fetch_object server n params =
    if not (server.merges params) then err bad_url else server.answer n params

-- fetchPageWithMeta, fetchOffsetWithMeta and fetchCursorWithMeta: the records, with what `meta` reads
-- from the object
unfoldable pub fetch_with_meta {ℓ} :
    {A : Type ℓ} → Server → Text → (Fields → A) → ℕ → Params → Result PagingError (List Fields × A)
unfolding fetch_object extract_records_from_object
fetch_with_meta server data_field meta n params = elim (fetch_object server n params) [
  | err e ↦ err e
  | ok obj ↦ elim (extract_records_from_object data_field obj) [
    | err e ↦ err e
    | ok rs ↦ ok (rs, meta obj)
  ]
]

-- What a loop did: the parameters of its rounds, and its result.
pub record Fetched : Type 0 where
  pub rounds : List Params
  pub result : Option (Result PagingError (List Fields))

-- the round before the others
abbrev pub after : Params → Fetched → Fetched
after params f = record f { rounds = params ∷ f.rounds }

-- the parameters of fetchPageBased
unfoldable pub page_params : PaginationConfig → ℕ → Params
unfolding pagination_limit_params assign itoa_ℕ
page_params p page = assign p.param (itoa_ℕ page) (pagination_limit_params p)

-- the round of fetchPageBased for a page
unfoldable pub fetch_page_with_meta :
    Server → PaginationConfig → Text → ℕ → Result PagingError (List Fields × ℤ)
unfolding page_params fetch_with_meta extract_int_field
fetch_page_with_meta server p data_field page =
    fetch_with_meta server data_field
      (λ (obj : Fields). extract_int_field server obj p.total_pages_field) (page - 1)
      (page_params p page)

abbrev pub no_records : List Fields → Bool
no_records [] = true
no_records (r ∷ rs) = false

-- the end of a loop, and a round before the rest of the loop
abbrev pub stop_with : Params → Result PagingError (List Fields) → Fetched
stop_with params r = record { rounds = params ∷ []; result = some r }

-- the loop's condition does not hold, or there is no fuel
abbrev pub ended : List Fields → Fetched
ended all = record { rounds = []; result = some (ok all) }

abbrev pub out_of_fuel : Fetched
out_of_fuel = record { rounds = []; result = none }

abbrev pub or_go_on : Bool → Params → List Fields → (List Fields → Fetched) → Fetched
or_go_on true params all rest = stop_with params (ok all)
or_go_on false params all rest = after params (rest all)

-- What a round of fetchPageBased makes of its answer.
unfoldable pub page_round :
    ℕ
    → Params
    → List Fields
    → Result PagingError (List Fields × ℤ)
    → (List Fields → Fetched)
    → Fetched
page_round page params all (err e) rest = stop_with params (err e)
page_round page params all (ok (rs, total_pages)) rest =
    or_go_on ((ltb_ℤ (pos 0) total_pages && leb_ℤ total_pages (pos page)) || no_records rs) params
      (all ++ rs) rest

-- the loop of fetchPageBased
unfoldable pub page_loop : Server → PaginationConfig → Text → ℕ → ℕ → List Fields → Fetched
unfolding page_params fetch_page_with_meta page_round
page_loop server p data_field zero page all = out_of_fuel
page_loop server p data_field (suc fuel) page all =
    if leb page max_pagination_pages
    then page_round page (page_params p page) all (fetch_page_with_meta server p data_field page)
        (λ more. page_loop server p data_field fuel (page + 1) more)
    else ended all

-- int arithmetic on offsets: maxPaginationPages*limit and offset + limit
abbrev pub difference : ℕ → ℕ → ℤ
difference m n = if leb n m then pos (m - n) else minus (n - m)

unfoldable pub offset_bound : ℤ → ℤ
unfolding wrap
offset_bound limit =
    wrap
      (difference (max_pagination_pages * pos_part limit) (max_pagination_pages * neg_part limit))

unfoldable pub next_offset : ℤ → ℤ → ℤ
unfolding wrap
next_offset offset limit =
    wrap (difference (pos_part offset + pos_part limit) (neg_part offset + neg_part limit))

-- the parameters of fetchOffsetBased
unfoldable pub offset_params : PaginationConfig → ℤ → ℤ → Params
unfolding assign itoa
offset_params p limit offset = assign p.limit_param (itoa limit) (assign p.param (itoa offset) [])

-- the round of fetchOffsetBased for an offset, after `i` rounds
unfoldable pub fetch_offset_with_meta :
    Server → PaginationConfig → Text → ℤ → ℕ → ℤ → Result PagingError (List Fields × ℤ)
unfolding offset_params fetch_with_meta extract_int_field
fetch_offset_with_meta server p data_field limit i offset =
    fetch_with_meta server data_field (λ (obj : Fields). extract_int_field server obj p.total_field)
      i (offset_params p limit offset)

-- What a round of fetchOffsetBased makes of its answer.
unfoldable pub offset_round :
    ℤ
    → Params
    → List Fields
    → Result PagingError (List Fields × ℤ)
    → (List Fields → Fetched)
    → Fetched
offset_round limit params all (err e) rest = stop_with params (err e)
offset_round limit params all (ok (rs, total)) rest =
    or_go_on
      ((ltb_ℤ (pos 0) total && leb_ℤ total (pos (length (all ++ rs))))
        || (no_records rs || ltb_ℤ (pos (length rs)) limit))
      params (all ++ rs) rest

-- the loop of fetchOffsetBased, after `i` rounds
unfoldable pub offset_loop :
    Server → PaginationConfig → Text → ℤ → ℕ → ℕ → ℤ → List Fields → Fetched
unfolding offset_params fetch_offset_with_meta offset_round offset_bound next_offset
offset_loop server p data_field limit zero i offset all = out_of_fuel
offset_loop server p data_field limit (suc fuel) i offset all =
    if ltb_ℤ offset (offset_bound limit)
    then offset_round limit (offset_params p limit offset) all
        (fetch_offset_with_meta server p data_field limit i offset)
        (λ more. offset_loop server p data_field limit fuel (i + 1) (next_offset offset limit) more)
    else ended all

-- fetchOffsetBased
abbrev pub limit_or_default : ℤ → ℤ
limit_or_default limit = if eq_ℤ limit (pos 0) then pos 100 else limit

unfoldable pub offset_based : Server → PaginationConfig → Text → ℕ → Fetched
unfolding offset_loop
offset_based server p data_field fuel =
    offset_loop server p data_field (limit_or_default p.limit) fuel 0 (pos 0) []

-- the parameters of fetchCursorBased
unfoldable pub cursor_params : PaginationConfig → Text → Params
unfolding pagination_limit_params assign
cursor_params p cursor =
    let params = pagination_limit_params p in
    if is_blank cursor then params else assign p.param cursor params

-- the round of fetchCursorBased after `i` rounds
unfoldable pub fetch_cursor_with_meta :
    Server → PaginationConfig → Text → ℕ → Text → Result PagingError (List Fields × Text)
unfolding cursor_params fetch_with_meta extract_string_field
fetch_cursor_with_meta server p data_field i cursor =
    fetch_with_meta server data_field
      (λ (obj : Fields). extract_string_field server obj p.next_cursor_field) i
      (cursor_params p cursor)

-- What a round of fetchCursorBased makes of its answer.
unfoldable pub cursor_round :
    Params
    → List Fields
    → Result PagingError (List Fields × Text)
    → (Text → List Fields → Fetched)
    → Fetched
cursor_round params all (err e) rest = stop_with params (err e)
cursor_round params all (ok (rs, next)) rest =
    or_go_on (is_blank next) params (all ++ rs) (rest next)

-- the loop of fetchCursorBased, after `i` rounds
unfoldable pub cursor_loop : Server → PaginationConfig → Text → ℕ → ℕ → Text → List Fields → Fetched
unfolding cursor_params fetch_cursor_with_meta cursor_round
cursor_loop server p data_field zero i cursor all = out_of_fuel
cursor_loop server p data_field (suc fuel) i cursor all =
    if ltb i max_pagination_pages
    then cursor_round (cursor_params p cursor) all
        (fetch_cursor_with_meta server p data_field i cursor)
        (λ next more. cursor_loop server p data_field fuel (i + 1) next more)
    else ended all

-- fetchWithPagination; fetchPageBased and fetchCursorBased are the loops from their start.
unfoldable pub fetch_with_pagination : Server → PaginationConfig → Text → ℕ → Fetched
unfolding same page_loop offset_based cursor_loop
fetch_with_pagination server p data_field fuel =
    if same p.type (codes "page")
    then page_loop server p data_field fuel 1 []
    else if same p.type (codes "offset")
    then offset_based server p data_field fuel
    else if same p.type (codes "cursor")
    then cursor_loop server p data_field fuel 0 [] []
    else record { rounds = []; result = some (err unknown_type) }
