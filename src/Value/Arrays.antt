-- ===== src/Value/Arrays.antt =====
-- Go's operations on `[]any`: length, indexing, writing, growing with nil, deleting one element.
use cannectors.Prelude.{
  ℕ, zero, suc, ◌+◌, ◌<◌, ◌≤◌, Option, none, some, ◌≡◌, refl, ap, arith, List, [], ◌∷◌,
}
use cannectors.Value.{Value, null, Items, nil, cons}

abbrev pub size : Items → ℕ
size nil = 0
size (cons v a) = suc (size a)

-- arr[i], guarded by i < len(arr)
unfoldable pub at : ℕ → Items → Option Value
at i nil = none
at zero (cons v a) = some v
at (suc i) (cons v a) = at i a

-- arr[i] = v, for i < len(arr)
unfoldable pub write : ℕ → Value → Items → Items
write i v nil = nil
write zero v (cons w a) = cons v a
write (suc i) v (cons w a) = cons w (write i v a)

-- make([]any, n)
unfoldable pub nulls : ℕ → Items
nulls zero = nil
nulls (suc n) = cons null (nulls n)

-- append(a, b...)
unfoldable pub append : Items → Items → Items
append nil b = b
append (cons v a) b = cons v (append a b)

-- append(arr[:i], arr[i+1:]...), for i < len(arr)
unfoldable pub splice : ℕ → Items → Items
splice i nil = nil
splice zero (cons v a) = a
splice (suc i) (cons v a) = cons v (splice i a)

-- the elements as a list
unfoldable pub to_list : Items → List Value
to_list nil = []
to_list (cons v a) = v ∷ to_list a

pub size-nulls : (n : ℕ) → size (nulls n) ≡ n
unfolding nulls
size-nulls zero = refl
size-nulls (suc n) = ap suc (size-nulls n)

pub size-append : (a b : Items) → size (append a b) ≡ size a + size b
unfolding append
size-append nil b = omega arith
size-append (cons v a) b = omega (arith, size-append a b)

pub at-write_self : (i : ℕ) (v : Value) (a : Items) → i < size a → at i (write i v a) ≡ some v
unfolding at write
at-write_self i v nil h = elim h [ ]
at-write_self zero v (cons w a) h = refl
at-write_self (suc i) v (cons w a) h = at-write_self i v a (omega arith)

pub at_of_size-le : (i : ℕ) (a : Items) → size a ≤ i → at i a ≡ none
unfolding at
at_of_size-le i nil h = refl
at_of_size-le zero (cons w a) h = absurd (omega arith)
at_of_size-le (suc i) (cons w a) h = at_of_size-le i a (omega arith)
