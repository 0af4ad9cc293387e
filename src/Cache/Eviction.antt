-- ===== src/Cache/Eviction.antt =====
-- Which entry evictLRU removes (internal/cache/lru.go).
use cannectors.Prelude.{
  ℕ, ◌+◌, ◌≤◌, ◌≡◌, refl, sym, ap, ◌⊎◌, inl, inr, true, none, some, List, [], ◌∷◌, Text, arith,
  same_iff, ltb, is_some, is_blank, if◌then◌else◌, Bool-cases,
}
use cannectors.Prelude.Assoc.{lookup, delete}
use cannectors.Cache.Lru.{Item, Cache, oldest_from, evict_lru}

module _ {V : Type 0} where
  -- The entry stands in the list.
  abbrev pub In : Text × Item V → List (Text × Item V) → Type 0
  In e [] = ⊥
  In e (x ∷ xs) = (e ≡ x) ⊎ In e xs

  -- `range` over a map visits every entry, and nothing else, in some order.
  pub record Visits (walk : List (Text × Item V) → List (Text × Item V)) : Type 0 where
    pub complete : (m : List (Text × Item V)) (e : Text × Item V) → In e m → In e (walk m)
    pub sound : (m : List (Text × Item V)) (e : Text × Item V) → In e (walk m) → In e m

  oldest-le :
      (b : Text) (u : ℕ) (es : List (Text × Item V)) (k : Text) (t : ℕ)
      → oldest_from (some (b, u)) es ≡ some (k, t)
      → (t ≤ u) × ((e : Text × Item V) → In e es → t ≤ e.1.last_used)
  unfolding oldest_from
  oldest-le b u [] k t h = (ground arith, λ e i. absurd i)
  oldest-le b u ((j, item) ∷ es) k t h = elim (Bool-cases (ltb item.last_used u)) [
    | inl older ↦
        let (here, there) = oldest-le j item.last_used es k t (rw older at h) in
        (ground arith, λ e i. elim i [ inl eq ↦ rw eq here | inr later ↦ there e later ])
    | inr newer ↦
        let (here, there) = oldest-le b u es k t (rw newer at h) in
        (here, λ e i. elim i [ inl eq ↦ rw eq (ground arith) | inr later ↦ there e later ])
  ]

  oldest-In :
      (b : Text) (u : ℕ) (es : List (Text × Item V)) (k : Text) (t : ℕ)
      → oldest_from (some (b, u)) es ≡ some (k, t)
      → ((b ≡ k) × (u ≡ t)) ⊎ ((item : Item V) × In (k, item) es × (item.last_used ≡ t))
  unfolding oldest_from
  oldest-In b u [] k t h = inl (ground arith)
  oldest-In b u ((j, item) ∷ es) k t h = elim (Bool-cases (ltb item.last_used u)) [
    | inl older ↦ elim (oldest-In j item.last_used es k t (rw older at h)) [
      | inl (name, time) ↦ inr (item, inl (ap (λ (x : Text). (x, item)) (sym name)), time)
      | inr (found, there, time) ↦ inr (found, inr there, time)
    ]
    | inr newer ↦ elim (oldest-In b u es k t (rw newer at h)) [
      | inl same_one ↦ inl same_one
      | inr (found, there, time) ↦ inr (found, inr there, time)
    ]
  ]

  oldest_some :
      (b : Text) (u : ℕ) (es : List (Text × Item V))
      → (k : Text) × (t : ℕ) × (oldest_from (some (b, u)) es ≡ some (k, t))
  unfolding oldest_from
  oldest_some b u [] = (b, u, refl)
  oldest_some b u ((j, item) ∷ es) = elim (Bool-cases (ltb item.last_used u)) [
    | inl older ↦ let (k, t, e) = oldest_some j item.last_used es in (k, t, rw older e)
    | inr newer ↦ let (k, t, e) = oldest_some b u es in (k, t, rw newer e)
  ]

  -- The scan of a list that is not empty ends with one of its entries, and no entry of the list
  -- was used before it.
  oldest_found :
      (es : List (Text × Item V)) (e : Text × Item V)
      → In e es
      → (k : Text) × (item : Item V) × (oldest_from none es ≡ some (k, item.last_used))
        × In (k, item) es
        × ((f : Text × Item V) → In f es → item.last_used ≤ f.1.last_used)
  unfolding oldest_from
  oldest_found [] e i = absurd i
  oldest_found ((j, item) ∷ es) e i =
      let (k, t, found) = oldest_some j item.last_used es in
      let (first, rest) = oldest-le j item.last_used es k t found in
      elim (oldest-In j item.last_used es k t found) [
        | inl (name, time) ↦ (
          j,
          item,
          rw found (ap some (ground arith)),
          inl refl,
          λ f there. elim there [
            | inl eq ↦ rw eq (omega arith)
            | inr later ↦ omega (arith, rest f later)
          ],
        )
        | inr (oldest, place, time) ↦ (
          k,
          oldest,
          rw found (ap some (ground arith)),
          inr place,
          λ f there. elim there [
            | inl eq ↦ rw eq (omega arith)
            | inr later ↦ omega (arith, rest f later)
          ],
        )
      ]

  pub lookup_of_In :
      (k : Text) (item : Item V) (es : List (Text × Item V))
      → In (k, item) es
      → is_some (lookup k es) ≡ true
  unfolding lookup
  lookup_of_In k item [] i = absurd i
  lookup_of_In k item ((j, other) ∷ es) i = elim i [
    | inl eq ↦ ground (arith, same_iff j k)
    | inr later ↦ ground (arith, lookup_of_In k item es later)
  ]

  module _ (walk : List (Text × Item V) → List (Text × Item V)) (visits : Visits walk) where
    -- With an entry in the cache, evictLRU chooses an entry that no other was used before, whatever
    -- the order of the iteration, removes it and counts the eviction, unless its key is empty.
    pub evict_lru_removes_oldest :
        (c : Cache V) (e : Text × Item V)
        → In e c.items
        → (k : Text) × (item : Item V) × In (k, item) c.items
          × ((f : Text × Item V) → In f c.items → item.last_used ≤ f.1.last_used)
          × (evict_lru walk c ≡ (
              if is_blank k
              then c
              else record c { items = delete k c.items; evictions = c.evictions + 1 }))
    unfolding evict_lru
    evict_lru_removes_oldest c e i =
        let (k, item, found, there, least) =
          oldest_found (walk c.items) e (visits.complete c.items e i) in
        (
          k,
          item,
          visits.sound c.items (k, item) there,
          λ f j. least f (visits.complete c.items f j),
          rw found refl,
        )
