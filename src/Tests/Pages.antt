-- ===== src/Tests/Pages.antt =====
-- The paging of the httpPolling input on servers with three records
-- (internal/modules/input/http_polling_pagination.go).
use cannectors.Prelude.{
  ℕ, zero, suc, ◌+◌, ◌*◌, ◌^◌, ◌≡◌, ◌≤◌, ◌<◌, refl, ap, arith, true, Option, none, some, List, [],
  ◌∷◌, take, drop, Text, codes, same, if◌then◌else◌, ok, inl,
}
use cannectors.Prelude.Int.{pos}
use cannectors.Prelude.Decimal.{itoa}
use cannectors.Prelude.Assoc.{lookup}
use cannectors.Value.{text, array, object, Items, nil, cons, Fields, end, field}
use cannectors.Input.Response.{Server, extract_int_field, extract_records_from_object}
use cannectors.Input.Paging.{max_pagination_pages, PaginationConfig, fetch_with_pagination}
use cannectors.Input.Paging.Walk.{EndsWithin, fetch_with_pagination-EndsWithin}
use cannectors.Input.Paging.Slices.{IsSlicing, fetch_offset-IsSlicing}

abbrev numbered : Text → Fields
numbered s = field (codes "id") (text s) end

abbrev stock : List Fields
stock = numbered (codes "a") ∷ numbered (codes "b") ∷ numbered (codes "c") ∷ []

abbrev items_of : List Fields → Items
items_of [] = nil
items_of (r ∷ rs) = cons (object r) (items_of rs)

abbrev config : Text → PaginationConfig
config kind = record {
  type = kind;
  param = codes "p";
  limit_param = codes "size";
  limit = pos 2;
  total_pages_field = codes "pages";
  total_field = codes "total";
  next_cursor_field = codes "next";
}

-- a server that answers a request by the offset in its parameters
abbrev slice_at : Option Text → List Fields
slice_at none = []
slice_at (some offset) =
    if same offset (codes "0")
    then take 2 stock
    else if same offset (codes "1")
    then drop 1 stock
    else if same offset (codes "2")
    then drop 2 stock
    else []

abbrev body_of : List Fields → Fields
body_of rs = field (codes "data") (array (items_of rs)) end

abbrev slicing : Server
slicing = record {
  merges = λ params. true;
  answer = λ n params. ok (body_of (slice_at (lookup (codes "p") params)));
  to_int = λ f. pos f;
  format_float = λ f. [];
}

slicing-IsSlicing : IsSlicing slicing (config (codes "offset")) (codes "data") 2 stock
unfolding extract_records_from_object extract_int_field cannectors.Prelude.same itoa
slicing-IsSlicing n zero params within asked limited = (
  refl,
  body_of (take 2 stock),
  ap (λ o. ok (body_of (slice_at o))) asked,
  pos 0,
  inl refl,
  (refl, refl),
)
slicing-IsSlicing n (suc zero) params within asked limited = (
  refl,
  body_of (drop 1 stock),
  ap (λ o. ok (body_of (slice_at o))) asked,
  pos 0,
  inl refl,
  (refl, refl),
)
slicing-IsSlicing n (suc (suc zero)) params within asked limited = (
  refl,
  body_of (drop 2 stock),
  ap (λ o. ok (body_of (slice_at o))) asked,
  pos 0,
  inl refl,
  (refl, refl),
)
slicing-IsSlicing n (suc (suc (suc zero))) params within asked limited =
    (refl, body_of [], ap (λ o. ok (body_of (slice_at o))) asked, pos 0, inl refl, (refl, refl))
slicing-IsSlicing n (suc (suc (suc (suc k)))) params within asked limited = absurd (omega arith)

-- a thousand limits of 2^62 wrap around to 0, and nothing is requested
wide_limit :
    fetch_with_pagination slicing
      (record (config (codes "offset")) { limit = pos (2 ^ 62) })
      (codes "data")
      1001
    ≡ record { rounds = []; result = some (ok []) }
unfolding fetch_with_pagination cannectors.Prelude.same
wide_limit = refl

fetch_offset-IsSlicing_example :
    (fetch_with_pagination slicing (config (codes "offset")) (codes "data") 1001).result
    ≡ some (ok (take (max_pagination_pages * 2) stock))
unfolding same
fetch_offset-IsSlicing_example =
    fetch_offset-IsSlicing slicing (config (codes "offset")) (codes "data") 2 1001 stock refl refl
      refl (omega arith) (omega arith) slicing-IsSlicing

fetch_with_pagination-EndsWithin_example :
    EndsWithin max_pagination_pages
      (fetch_with_pagination slicing (config (codes "page")) (codes "data") 1001)
fetch_with_pagination-EndsWithin_example =
    fetch_with_pagination-EndsWithin slicing (config (codes "page")) (codes "data") 1001
      (omega arith) (omega arith)
