-- ===== src/RecordPath/Root.antt =====
-- A write through a path touches one top-level field: the path's root, the text before the first
-- `.` or `[` (internal/recordpath/path.go; errhandling.IsReservedRecordPath reads the same root).
use cannectors.Prelude.{
  ℕ, zero, suc, ◌≡◌, refl, sym, ◌∙◌, false, Option, none, some, List, [], ◌∷◌, Text, arith, inl,
  inr, Option-cases, same, take, ◌==◌, if◌then◌else◌,
}
use cannectors.Value.{Value, Fields}
use cannectors.Value.Maps
use cannectors.Value.Maps.{get-put}
use cannectors.RecordPath.Segment.{Part, index, split, split-cons, parse_part, bracketed, root}
use cannectors.RecordPath.Access.{Error, descend, assign, set_parts, set, is_nested}

before_bracket : Text → Text
before_bracket [] = []
before_bracket (c ∷ s) = let rest = before_bracket s in if c == b'[' then [] else c ∷ rest

root-split : (s p : Text) (ps : List Text) → split b'.' s ≡ p ∷ ps → root s ≡ before_bracket p
unfolding split root before_bracket
root-split [] p ps e = ground arith
root-split (c ∷ s) p ps e =
    let (q, qs, f) = split-cons b'.' s in let ih = root-split s q qs f in ground (arith, f, ih)

unbracketed : (p : Text) → index b'[' p ≡ none → before_bracket p ≡ p
unfolding index before_bracket
unbracketed [] h = refl
unbracketed (c ∷ p) h = ground (arith, unbracketed p)

bracketed_at : (p : Text) (i : ℕ) → index b'[' p ≡ some i → before_bracket p ≡ take i p
unfolding index before_bracket
bracketed_at [] i h = cc
bracketed_at (c ∷ p) zero h = ground arith
bracketed_at (c ∷ p) (suc i) h = ground (arith, bracketed_at p i)

key-bracketed :
    (p : Text) (i : ℕ) (o : Option ℕ) (q : Part) → bracketed p i o ≡ some q → q.key ≡ take i p
unfolding bracketed
key-bracketed p i none q h = cc
key-bracketed p i (some j) q h = ground arith

key-parse_part : (p : Text) (q : Part) → parse_part p ≡ some q → q.key ≡ before_bracket p
unfolding parse_part
key-parse_part p q h = elim (Option-cases (index b'[' p)) [
  | inl e ↦ ground (arith, e, unbracketed p e)
  | inr (i, e) ↦
      key-bracketed p i (index b']' p) q (rw (e, parse_part) at h) ∙ sym (bracketed_at p i e)
]

-- One step of a write changes its own key alone.
get-assign :
    (q : Part) (v : Value) (m : Fields) (k : Text)
    → same q.key k ≡ false
    → Maps.get k (assign (some q) v m).0 ≡ Maps.get k m
unfolding assign
get-assign q v m k h = elim (Option-cases q.index_of) [
  | inl e ↦ rw e (rw (get-put, h))
  | inr (i, e) ↦ rw e (rw (get-put, h))
]

get-descend :
    (q : Part) (f : Fields → Fields × Option Error) (m : Fields) (k : Text)
    → same q.key k ≡ false
    → Maps.get k (descend (some q) f m).0 ≡ Maps.get k m
unfolding descend
get-descend q f m k h = elim (Option-cases q.index_of) [
  | inl e ↦ rw e (rw (get-put, h))
  | inr (i, e) ↦ rw e (rw (get-put, h))
]

get-set_parts :
    (p : Text) (ps : List Text) (v : Value) (m : Fields) (k : Text)
    → same (before_bracket p) k ≡ false
    → Maps.get k (set_parts (p ∷ ps) v m).0 ≡ Maps.get k m
unfolding set_parts assign descend
get-set_parts p [] v m k h = elim (Option-cases (parse_part p)) [
  | inl e ↦ rw e refl
  | inr (q, e) ↦ rw e (get-assign q v m k (rw (key-parse_part p q e) h))
]
get-set_parts p (q ∷ ps) v m k h = elim (Option-cases (parse_part p)) [
  | inl e ↦ rw e refl
  | inr (r, e) ↦ rw e (get-descend r (set_parts (q ∷ ps) v) m k (rw (key-parse_part p r e) h))
]

-- A write through a path, failing or not, leaves every top-level field but the path's root as it was.
pub get-set-root_ne :
    (obj : Fields) (path : Text) (v : Value) (k : Text)
    → same (root path) k ≡ false
    → Maps.get k (set obj path v).0 ≡ Maps.get k obj
unfolding set
get-set-root_ne obj [] v k h = refl
get-set-root_ne obj (c ∷ s) v k h =
    let (p, ps, e) = split-cons b'.' (c ∷ s) in
    rw e (get-set_parts p ps v obj k (rw (root-split (c ∷ s) p ps e) at h))

-- A path that is not nested is its own root.
pub root-not_nested : (path : Text) → is_nested path ≡ false → root path ≡ path
unfolding root is_nested
root-not_nested [] h = refl
root-not_nested (c ∷ s) h = ground (arith, root-not_nested s)
