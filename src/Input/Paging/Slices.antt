-- ===== src/Input/Paging/Slices.antt =====
-- Paging over a server that has all of its records behind pages (internal/modules/input/
-- http_polling_pagination.go): what the loops collect.
use mathlib.Core.Path.{subst, ap₂}
use cannectors.Prelude.{
  ℕ, zero, suc, ◌+◌, ◌*◌, ◌≡◌, ◌≤◌, ◌<◌, ◌⊎◌, refl, sym, ap, ◌∙◌, arith, Bool, true, false, ◌&&◌,
  ◌||◌, List, [], ◌∷◌, ◌++◌, length, take, drop, Text, codes, same, same_refl, if-cases, Option,
  some, ltb, ◌==◌, if◌then◌else◌, Result, ok, inl, inr, Bool-cases,
}
use cannectors.Prelude.Int.{ℤ, pos, ltb_ℤ, leb_ℤ}
use cannectors.Prelude.Decimal.{itoa}
use cannectors.Prelude.Assoc.{lookup, assign, lookup-assign}
use cannectors.Value.{Fields}
use cannectors.Input.Response.{
  PagingError, Params, Server, extract_int_field, extract_records_from_object,
}
use cannectors.Input.Paging.{
  max_pagination_pages, PaginationConfig, Fetched, no_records, or_go_on, fetch_object,
  fetch_with_meta, offset_params, fetch_offset_with_meta, offset_round, offset_bound, next_offset,
  limit_or_default, offset_loop, offset_based, fetch_with_pagination,
}
use cannectors.Input.Paging.Segments.{
  take-plus, take_all, length-take_short, length-take-drop, length-take_le, length-take_le_all,
  room_after,
}
use cannectors.Input.Paging.Walk.{Fits, offset_bound-pos, next_offset-pos, past_end}

-- the server's total: none, or the number of its records
abbrev pub IsTotal : ℤ → List Fields → Type 0
IsTotal t xs = (t ≡ pos 0) ⊎ (t ≡ pos (length xs))

some_records :
    (rs : List Fields) (limit : ℕ)
    → 1 ≤ limit
    → ltb (length rs) limit ≡ false
    → no_records rs ≡ false
some_records [] limit positive full = absurd (ground (arith, full))
some_records (r ∷ rs) limit positive full = refl

total_reached :
    (t : ℤ) (xs : List Fields) (n : ℕ)
    → IsTotal t xs
    → (ltb_ℤ (pos 0) t && leb_ℤ t (pos n)) ≡ true
    → length xs ≤ n
total_reached t xs n (inl e) h = absurd (ground (arith, (rw e at h)))
total_reached t xs n (inr e) h = ground (arith, (rw e at h))

or_true : (a b c : Bool) → (a || (b || c)) ≡ true → b ≡ false → c ≡ false → a ≡ true
or_true true b c h k l = refl
or_true false b c h k l = absurd (ground (arith, h, k, l))

-- A round that stops has come to the end of the records.
stops_at_end :
    (limit offset : ℕ) (xs all : List Fields) (t : ℤ)
    → 1 ≤ limit
    → IsTotal t xs
    → all ≡ take (offset + limit) xs
    → let rs = take limit (drop offset xs) in
      ((ltb_ℤ (pos 0) t && leb_ℤ t (pos (length all))) || (no_records rs || ltb (length rs) limit))
        ≡ true
      → length xs ≤ offset + limit
stops_at_end limit offset xs all t positive total e h =
    elim (Bool-cases (ltb (length (take limit (drop offset xs))) limit)) [
      | inl short ↦
          let few = length-take_short limit (drop offset xs) (ground (arith, short)) in
          omega (arith, length-take-drop offset xs limit few)
      | inr full ↦
          let reached = total_reached t xs (length all) total (
            or_true _ _ _ h (some_records (take limit (drop offset xs)) limit positive full)
              full) in
          length-take_le (offset + limit) xs (omega (arith, reached, ap length e))
    ]

or_go_on-result :
    (b : Bool) (params : Params) (all : List Fields) (rest : List Fields → Fetched)
    (r : Option (Result PagingError (List Fields)))
    → (b ≡ true → some (ok all) ≡ r)
    → (b ≡ false → (rest all).result ≡ r)
    → (or_go_on b params all rest).result ≡ r
or_go_on-result true params all rest r stop go_on = stop refl
or_go_on-result false params all rest r stop go_on = go_on refl

-- what the server's answer is read as: records, and the total
abbrev pub ReadsAs : Server → PaginationConfig → Text → Fields → List Fields → ℤ → Type 0
ReadsAs server p d obj rs t =
    (extract_records_from_object d obj ≡ ok rs) × (extract_int_field server obj p.total_field ≡ t)

-- The server has the records `xs`: a request with an offset among them and the limit in its parameters,
-- whichever request it is, gets the slice that these ask for.
abbrev pub IsSlicing : Server → PaginationConfig → Text → ℕ → List Fields → Type 0
IsSlicing server p d size xs =
    (n offset : ℕ) (params : Params)
    → offset ≤ length xs
    → lookup p.param params ≡ some (itoa (pos offset))
    → lookup p.limit_param params ≡ some (itoa (pos size))
    → (server.merges params ≡ true)
      × (obj : Fields) × (server.answer n params ≡ ok obj)
      × (t : ℤ) × IsTotal t xs
      × ReadsAs server p d obj (take size (drop offset xs)) t

asked_offset :
    (p : PaginationConfig) (limit offset : ℤ)
    → same p.limit_param p.param ≡ false
    → lookup p.param (offset_params p limit offset) ≡ some (itoa offset)
unfolding offset_params
asked_offset p limit offset apart =
    lookup-assign p.limit_param p.param (itoa limit) (assign p.param (itoa offset) [])
    ∙ ap (λ b. if b then some (itoa limit) else lookup p.param (assign p.param (itoa offset) []))
        apart
    ∙ lookup-assign p.param p.param (itoa offset) []
    ∙ ap (λ b. if b then some (itoa offset) else lookup p.param []) (same_refl p.param)

asked_limit :
    (p : PaginationConfig) (limit offset : ℤ)
    → lookup p.limit_param (offset_params p limit offset) ≡ some (itoa limit)
unfolding offset_params
asked_limit p limit offset =
    lookup-assign p.limit_param p.limit_param (itoa limit) (assign p.param (itoa offset) [])
    ∙ ap
        (λ b.
          if b then some (itoa limit) else lookup p.limit_param (assign p.param (itoa offset) []))
        (same_refl p.limit_param)

fetched :
    (server : Server) (d : Text) (meta : Fields → ℤ) (n : ℕ) (params : Params) (obj : Fields)
    (rs : List Fields)
    → server.merges params ≡ true
    → server.answer n params ≡ ok obj
    → extract_records_from_object d obj ≡ ok rs
    → fetch_with_meta server d meta n params ≡ ok (rs, meta obj)
unfolding fetch_with_meta fetch_object
fetched server d meta n params obj rs merges answer reads =
    rw (merges, answer, reads, fetch_with_meta, fetch_object) refl

fetched_slice :
    (server : Server) (p : PaginationConfig) (d : Text) (size i offset : ℕ) (xs : List Fields)
    → same p.limit_param p.param ≡ false
    → IsSlicing server p d size xs
    → offset ≤ length xs
    → (t : ℤ) × IsTotal t xs
      × (fetch_offset_with_meta server p d (pos size) i (pos offset)
          ≡ ok (take size (drop offset xs), t))
unfolding fetch_offset_with_meta
fetched_slice server p d size i offset xs apart slicing within =
    let (merges, obj, answer, t, total, (reads, reads_total)) =
      slicing i offset (offset_params p (pos size) (pos offset)) within
        (asked_offset p (pos size) (pos offset) apart) (asked_limit p (pos size) (pos offset)) in
    (
      t,
      total,
      fetched server d (λ o. extract_int_field server o p.total_field) i
            (offset_params p (pos size) (pos offset)) obj _ merges answer reads
          ∙ ap (λ z. ok (take size (drop offset xs), z)) reads_total,
    )

ltb-pos : (a b : ℕ) → ltb_ℤ (pos a) (pos b) ≡ ltb a b
ltb-pos a b = ap₂ ltb (omega arith) (omega arith)

-- A round over a slice: it stops at the end of the records, or is full and goes on from the next offset.
slice_round :
    (size offset whole : ℕ) (xs all : List Fields) (t : ℤ) (params : Params)
    (rest : List Fields → Fetched)
    → 1 ≤ size
    → IsTotal t xs
    → all ≡ take offset xs
    → offset ≤ length xs
    → offset + size ≤ whole
    → (offset + size ≤ length xs
        → (rest (take (offset + size) xs)).result ≡ some (ok (take whole xs)))
    → (offset_round (pos size) params all (ok (take size (drop offset xs), t)) rest).result
      ≡ some (ok (take whole xs))
unfolding offset_round
slice_round size offset whole xs all t params rest positive total e within below later =
    let slice = take size (drop offset xs) in
    let joined : all ++ slice ≡ take (offset + size) xs =
      ap (λ ys. ys ++ slice) e ∙ take-plus offset size xs in
    let reached = ltb_ℤ (pos 0) t && leb_ℤ t (pos (length (all ++ slice))) in
    let short : (reached || (no_records slice || ltb_ℤ (pos (length slice)) (pos size)))
        ≡ (reached || (no_records slice || ltb (length slice) size)) =
      ap (λ b. reached || (no_records slice || b)) (ltb-pos (length slice) size) in
    or_go_on-result _ params (all ++ slice) rest (some (ok (take whole xs)))
      (λ stop.
        let end =
          stops_at_end size offset xs (all ++ slice) t positive total joined (sym short ∙ stop) in
        ap (λ l. some (ok l))
          (joined
            ∙ take_all (offset + size) xs end
            ∙ sym (take_all whole xs (omega (arith, end, below)))))
      (λ more.
        let full : ltb (length slice) size ≡ false = ground (arith, sym short ∙ more) in
        let few = length-take_le_all size (drop offset xs) in
        ap (λ l. (rest l).result) joined
        ∙ later (room_after offset size xs within (ground (arith, full, few))))

offset_loop-result :
    (server : Server) (p : PaginationConfig) (d : Text) (size fuel k i : ℕ) (xs all : List Fields)
    → 1 ≤ size
    → Fits (pos size)
    → same p.limit_param p.param ≡ false
    → IsSlicing server p d size xs
    → i + k ≡ max_pagination_pages
    → k < fuel
    → i * size ≤ length xs
    → all ≡ take (i * size) xs
    → (offset_loop server p d (pos size) fuel i (pos (i * size)) all).result
      ≡ some (ok (take (max_pagination_pages * size) xs))
unfolding offset_loop
offset_loop-result server p d size zero k i xs all positive fits apart slicing e h within there =
    absurd (omega arith)
offset_loop-result server p d size (suc fuel) zero i xs all positive fits apart slicing e h within
      there =
    let whole : i * size ≡ max_pagination_pages * size = ap (λ m. m * size) (omega (arith, e)) in
    if-cases (λ (f : Fetched). f.result ≡ some (ok (take (max_pagination_pages * size) xs)))
      (ltb_ℤ (pos (i * size)) (offset_bound (pos size))) _ _
      (λ t. absurd (past_end size i fits (omega (arith, e)) t))
      (λ _. ap (λ l. some (ok l)) (there ∙ ap (λ m. take m xs) whole))
offset_loop-result server p d size (suc fuel) (suc k) i xs all positive fits apart slicing e h
      within there =
    let (total_read, total, answer) =
      fetched_slice server p d size i (i * size) xs apart slicing within in
    let whole : max_pagination_pages * size ≡ i * size + size + k * size =
      ap (λ m. m * size) (sym e) ∙ omega arith in
    let next : i * size + size ≡ (i + 1) * size = omega arith in
    let rest : List Fields → Fetched = (λ more.
      offset_loop server p d (pos size) fuel (i + 1) (next_offset (pos (i * size)) (pos size))
        more) in
    if-cases (λ (f : Fetched). f.result ≡ some (ok (take (max_pagination_pages * size) xs)))
      (ltb_ℤ (pos (i * size)) (offset_bound (pos size))) _ _
      (λ _.
        subst
          (λ a.
            (offset_round (pos size) (offset_params p (pos size) (pos (i * size))) all a
              rest).result
            ≡ some (ok (take (max_pagination_pages * size) xs)))
          (sym answer)
          (slice_round size (i * size) (max_pagination_pages * size) xs all total_read
            (offset_params p (pos size) (pos (i * size))) rest positive total there within
            (omega (arith, whole))
            (λ more.
              ap
                (λ o.
                  (offset_loop server p d (pos size) fuel (i + 1) o
                    (take (i * size + size) xs)).result)
                (next_offset-pos i k size e fits)
              ∙ offset_loop-result server p d size fuel k (i + 1) xs (take (i * size + size) xs)
                  positive fits apart slicing (omega (arith, e)) (omega (arith, h))
                  (omega (arith, more, next)) (ap (λ m. take m xs) next))))
      (λ t.
        let above : ltb_ℤ (pos (i * size)) (pos (max_pagination_pages * size)) ≡ false =
          ap (λ b. ltb_ℤ (pos (i * size)) b) (sym (offset_bound-pos size fits)) ∙ t in
        absurd (ground (arith, above, whole, positive)))

paged_by_offset :
    (server : Server) (p : PaginationConfig) (d : Text) (fuel : ℕ)
    → p.type ≡ codes "offset"
    → fetch_with_pagination server p d fuel ≡ offset_based server p d fuel
unfolding fetch_with_pagination same
paged_by_offset server p d fuel e = rw (e, fetch_with_pagination) refl

default_limit : (limit : ℕ) → limit_or_default (pos limit) ≡ pos (if limit == 0 then 100 else limit)
default_limit zero = refl
default_limit (suc n) = ground arith

size_positive : (limit : ℕ) → 1 ≤ (if limit == 0 then 100 else limit)
size_positive limit = ground arith

size-Fits : (limit : ℕ) → Fits (pos limit) → Fits (pos (if limit == 0 then 100 else limit))
size-Fits limit h = if-cases (λ l. Fits (pos l)) (limit == 0) 100 limit (λ _. omega arith) (λ _. h)

-- Paging by offset collects the records of a server that gives to each request the slice that its offset
-- and limit parameters ask for: in order, all of them or as many as `max_pagination_pages` limits, the limit
-- being 100 where it is 0, and whether the server reports the total or not. The two parameters have
-- different names, a thousand limits fit an int, and there is more fuel than rounds.
pub fetch_offset-IsSlicing :
    (server : Server) (p : PaginationConfig) (data_field : Text) (limit fuel : ℕ) (xs : List Fields)
    → p.type ≡ codes "offset"
    → p.limit ≡ pos limit
    → same p.limit_param p.param ≡ false
    → Fits (pos limit)
    → max_pagination_pages < fuel
    → let size = (if limit == 0 then 100 else limit) in
      IsSlicing server p data_field size xs
      → (fetch_with_pagination server p data_field fuel).result
        ≡ some (ok (take (max_pagination_pages * size) xs))
unfolding offset_based
fetch_offset-IsSlicing server p d limit fuel xs is_offset limited apart fits enough slicing =
    let size = (if limit == 0 then 100 else limit) in
    let start : 0 * size ≡ 0 = omega arith in
    ap (λ f. f.result) (paged_by_offset server p d fuel is_offset)
    ∙ ap (λ z. (offset_loop server p d (limit_or_default z) fuel 0 (pos 0) []).result) limited
    ∙ ap (λ z. (offset_loop server p d z fuel 0 (pos 0) []).result) (default_limit limit)
    ∙ ap (λ o. (offset_loop server p d (pos size) fuel 0 (pos o) []).result) (sym start)
    ∙ offset_loop-result server p d size fuel max_pagination_pages 0 xs [] (size_positive limit)
        (size-Fits limit fits) apart slicing refl enough (omega arith)
        (ap (λ m. take m xs) (sym start))
