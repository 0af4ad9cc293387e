-- ===== src/Input/Webhook/Payload.antt =====
-- The records of a webhook's body (internal/modules/input/webhook.go: parsePayload, convertToRecords), described
-- apart from the way they are looked for.
use mathlib.Core.Path.{subst}
use cannectors.Prelude.{
  ◌≡◌, ◌⊎◌, refl, ap, ◌∙◌, Bool, true, false, not, Option, none, some, List, [], ◌∷◌, Text, codes,
  is_blank, if◌then◌else◌, inl, inr,
}
use cannectors.Value.{Value, array, object, Items, nil, cons, Fields}
use cannectors.Value.Maps.{get}
use cannectors.Input.Webhook.{
  Environment, records_of, convert_to_records, first_records, parse_payload,
}

abbrev pub items_of : List Fields → Items
items_of [] = nil
items_of (r ∷ rs) = cons (object r) (items_of rs)

-- The object holds a list of just these records under the key.
abbrev pub HoldsList : Fields → Text → List Fields → Type 0
HoldsList obj key rs = get key obj ≡ some (array (items_of rs))

-- The records are those of the first key that holds a list of records, or the object itself where none
-- does.
abbrev pub IsFirstList : Fields → List Text → List Fields → Type 0
IsFirstList obj [] rs = rs ≡ obj ∷ []
IsFirstList obj (k ∷ ks) rs =
    HoldsList obj k rs ⊎ (((rs' : List Fields) → ¬ (HoldsList obj k rs')) × IsFirstList obj ks rs)

abbrev common_fields : List Text
common_fields = codes "data" ∷ codes "items" ∷ codes "results" ∷ codes "records" ∷ []

abbrev IsObjectPayload : Text → Fields → List Fields → Type 0
IsObjectPayload d obj rs =
    ((is_blank d ≡ false) × HoldsList obj d rs)
    ⊎ ((is_blank d ≡ true) × IsFirstList obj common_fields rs)

-- The records of a body: it is an array of objects, or an object that has them under the configured
-- field, or, without one, under a common field, or that is the only record.
abbrev pub IsPayload : Environment → Text → Text → List Fields → Type 0
IsPayload env d body rs =
    (env.decode_array body ≡ some rs)
    ⊎ ((env.decode_array body ≡ none)
        × (obj : Fields) × (env.decode_object body ≡ some obj)
        × IsObjectPayload d obj rs)

records_of-some : (a : Items) (rs : List Fields) → records_of a ≡ some rs → a ≡ items_of rs
records_of-some nil rs h = let e : [] ≡ rs = cc in ap items_of e
records_of-some (cons (object m) a) rs h = go (records_of a) refl h (λ ms. records_of-some a ms)
  where
    go :
        (o : Option (List Fields))
        → records_of a ≡ o
        → (elim o as (λ x. Option (List Fields)) [ none ↦ none | some ms ↦ some (m ∷ ms) ])
          ≡ some rs
        → ((ms : List Fields) → records_of a ≡ some ms → a ≡ items_of ms)
        → cons (object m) a ≡ items_of rs
    go none e g later = absurd cc
    go (some ms) e g later =
        let all : m ∷ ms ≡ rs = cc in ap (cons (object m)) (later ms e) ∙ ap items_of all
records_of-some (cons v a) rs h = absurd cc

records_of-items_of : (rs : List Fields) → records_of (items_of rs) ≡ some rs
records_of-items_of [] = refl
records_of-items_of (r ∷ rs) = rw (records_of-items_of rs) refl

convert-some :
    (o : Option Value) (rs : List Fields)
    → convert_to_records o ≡ some rs
    → o ≡ some (array (items_of rs))
convert-some (some (array a)) rs h = ap (λ x. some (array x)) (records_of-some a rs h)
convert-some o rs h = absurd cc

convert-none :
    (o : Option Value) (rs : List Fields)
    → convert_to_records o ≡ none
    → ¬ (o ≡ some (array (items_of rs)))
convert-none o rs h e =
    let found : convert_to_records o ≡ some rs = ap convert_to_records e ∙ records_of-items_of rs in
    absurd cc

first_records-IsFirstList :
    (ks : List Text) (obj : Fields) → IsFirstList obj ks (first_records ks obj)
unfolding first_records
first_records-IsFirstList [] obj = refl
first_records-IsFirstList (k ∷ ks) obj =
    either (convert_to_records (get k obj)) refl (first_records-IsFirstList ks obj)
  where
    either :
        (o : Option (List Fields))
        → convert_to_records (get k obj) ≡ o
        → IsFirstList obj ks (first_records ks obj)
        → IsFirstList obj
            (k ∷ ks)
            (elim o as (λ x. List Fields) [ none ↦ first_records ks obj | some rs ↦ rs ])
    either none e later = inr (λ rs. convert-none (get k obj) rs e, later)
    either (some rs) e later = inl (convert-some (get k obj) rs e)

object_payload :
    (d : Text) (obj : Fields) (rs : List Fields) (b : Bool)
    → is_blank d ≡ b
    → (if not b then convert_to_records (get d obj) else some (first_records common_fields obj))
      ≡ some rs
    → IsObjectPayload d obj rs
object_payload d obj rs false e h = inl (e, convert-some (get d obj) rs h)
object_payload d obj rs true e h =
    let first : first_records common_fields obj ≡ rs = cc in
    inr
      (e, subst (IsFirstList obj common_fields) first (first_records-IsFirstList common_fields obj))

pub parse_payload-IsPayload :
    (env : Environment) (d body : Text) (rs : List Fields)
    → parse_payload env d body ≡ some rs
    → IsPayload env d body rs
unfolding parse_payload
parse_payload-IsPayload env d body rs h =
    go (env.decode_array body) (env.decode_object body) refl refl h
  where
    go :
        (a : Option (List Fields)) (o : Option Fields)
        → env.decode_array body ≡ a
        → env.decode_object body ≡ o
        → (elim a as (λ x. Option (List Fields)) [
          | some ms ↦ some ms
          | none ↦ elim o as (λ x. Option (List Fields)) [
            | none ↦ none
            | some obj ↦
                if not (is_blank d)
                then convert_to_records (get d obj)
                else some (first_records common_fields obj)
          ]
        ])
          ≡ some rs
        → IsPayload env d body rs
    go (some ms) o e f g = inl (e ∙ g)
    go none none e f g = absurd cc
    go none (some obj) e f g = inr (e, obj, f, object_payload d obj rs (is_blank d) refl g)
