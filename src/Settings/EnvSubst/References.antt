-- ===== src/Settings/EnvSubst/References.antt =====
-- The references of a configuration (internal/config/envsubst.go), described apart from their
-- substitution, and what the substitution does to them.
use mathlib.Core.Path.{ap₂}
use cannectors.Prelude.{
  ℕ, ◌+◌, ◌≡◌, refl, sym, ap, ◌∙◌, arith, Bool, true, false, Option, none, some, List, [], ◌∷◌,
  ◌++◌, Text, same, is_blank, length, if◌then◌else◌,
}
use cannectors.Value.{
  Value, null, bool, int, float, text, array, object, Items, nil, cons, Fields, end, field,
}
use cannectors.Settings.EnvSubst.{
  Part, byte, variable, name_at, parts, replace, substitute_string_env, is_skipped,
  substitute_value_env, substitute_list_env, substitute_map_env, substitute_env_vars,
}

abbrev pub names : List Part → List Text
names [] = []
names (byte c ∷ ps) = names ps
names (variable name ∷ ps) = name ∷ names ps

-- the names that have no value
abbrev pub unset : (Text → Text) → List Text → List Text
unset env [] = []
unset env (n ∷ ns) = if is_blank (env n) then n ∷ unset env ns else unset env ns

unset-append :
    (env : Text → Text) (ns ms : List Text) → unset env (ns ++ ms) ≡ unset env ns ++ unset env ms
unset-append env [] ms = refl
unset-append env (n ∷ ns) ms = ground (arith, unset-append env ns ms)

replace-missing : (env : Text → Text) (ps : List Part) → (replace env ps).1 ≡ unset env (names ps)
unfolding replace
replace-missing env [] = refl
replace-missing env (byte c ∷ ps) = replace-missing env ps
replace-missing env (variable name ∷ ps) = ground (arith, replace-missing env ps)

replace-step :
    (env : Text → Text) (c : ℕ) (s : Text) (o : Option Text)
    → (names (parts 0 s) ≡ [] → replace env (parts 0 s) ≡ (s, []))
    → names (elim o [
      | none ↦ byte c ∷ parts 0 s
      | some name ↦ variable name ∷ parts (length name + 2) s
    ])
      ≡ []
    → replace env (elim o [
      | none ↦ byte c ∷ parts 0 s
      | some name ↦ variable name ∷ parts (length name + 2) s
    ])
      ≡ (c ∷ s, [])
unfolding replace
replace-step env c s none ih h = ap (λ p. (c ∷ p.0, p.1)) (ih h)
replace-step env c s (some name) ih h = absurd cc

-- A text without references is put together again.
replace-parts :
    (env : Text → Text) (s : Text) → names (parts 0 s) ≡ [] → replace env (parts 0 s) ≡ (s, [])
unfolding replace parts
replace-parts env [] h = refl
replace-parts env (c ∷ s) h = replace-step env c s (name_at (c ∷ s)) (replace-parts env s) h

-- the names that a configuration refers to, where they are substituted
unfoldable mutual
  unfolding same parts

  pub references : Value → List Text
  references (text s) = names (parts 0 s)
  references (object m) = map_references m
  references (array a) = list_references a
  references null = []
  references (bool b) = []
  references (int z) = []
  references (float f) = []

  pub list_references : Items → List Text
  list_references nil = []
  list_references (cons v a) = references v ++ list_references a

  pub map_references : Fields → List Text
  map_references end = []
  map_references (field k v m) =
      if is_skipped k then map_references m else references v ++ map_references m

-- of two outcomes and their names, the one that a test picks
either-missing :
    (env : Text → Text) (b : Bool) (p q : Fields × List Text) (ns ms : List Text)
    → p.1 ≡ unset env ns
    → q.1 ≡ unset env ms
    → (if b then p else q).1 ≡ unset env (if b then ns else ms)
either-missing env true p q ns ms hp hq = hp
either-missing env false p q ns ms hp hq = hq

join-missing :
    (env : Text → Text) (ns ms : List Text) {x y : List Text}
    → x ≡ unset env ns
    → y ≡ unset env ms
    → x ++ y ≡ unset env (ns ++ ms)
join-missing env ns ms p q = ap₂ (λ x y. x ++ y) p q ∙ sym (unset-append env ns ms)

-- the names are found in the order of the walk
mutual
  unfolding substitute_value_env substitute_list_env substitute_map_env substitute_string_env
      references list_references map_references

  missing_of_value :
      (env : Text → Text) (v : Value) → (substitute_value_env env v).1 ≡ unset env (references v)
  missing_of_value env (text s) = replace-missing env (parts 0 s)
  missing_of_value env (object m) = missing_of_fields env m
  missing_of_value env (array a) = missing_of_items env a
  missing_of_value env null = refl
  missing_of_value env (bool b) = refl
  missing_of_value env (int z) = refl
  missing_of_value env (float f) = refl

  missing_of_items :
      (env : Text → Text) (a : Items)
      → (substitute_list_env env a).1 ≡ unset env (list_references a)
  missing_of_items env nil = refl
  missing_of_items env (cons v a) =
      join-missing env (references v) (list_references a) (missing_of_value env v)
        (missing_of_items env a)

  missing_of_fields :
      (env : Text → Text) (m : Fields) → (substitute_map_env env m).1 ≡ unset env (map_references m)
  missing_of_fields env end = refl
  missing_of_fields env (field k v m) =
      either-missing env (is_skipped k) _ _ (map_references m) (references v ++ map_references m)
        (missing_of_fields env m)
        (join-missing env (references v) (map_references m) (missing_of_value env v)
          (missing_of_fields env m))

append-nil-left : (ns ms : List Text) → ns ++ ms ≡ [] → ns ≡ []
append-nil-left [] ms h = refl
append-nil-left (n ∷ ns) ms h = absurd cc

append-nil-right : (ns ms : List Text) → ns ++ ms ≡ [] → ms ≡ []
append-nil-right [] ms h = h
append-nil-right (n ∷ ns) ms h = absurd cc

either-same :
    (b : Bool) (p q r : Fields × List Text) (ns ms : List Text)
    → (if b then ns else ms) ≡ []
    → (ns ≡ [] → p ≡ r)
    → (ms ≡ [] → q ≡ r)
    → (if b then p else q) ≡ r
either-same true p q r ns ms h hp hq = hp h
either-same false p q r ns ms h hp hq = hq h

-- where nothing is referred to, nothing changes
mutual
  unfolding substitute_value_env substitute_list_env substitute_map_env substitute_string_env
      references list_references map_references

  value_without :
      (env : Text → Text) (v : Value) → references v ≡ [] → substitute_value_env env v ≡ (v, [])
  value_without env (text s) h = ap (λ p. (text p.0, p.1)) (replace-parts env s h)
  value_without env (object m) h = ap (λ p. (object p.0, p.1)) (fields_without env m h)
  value_without env (array a) h = ap (λ p. (array p.0, p.1)) (items_without env a h)
  value_without env null h = refl
  value_without env (bool b) h = refl
  value_without env (int z) h = refl
  value_without env (float f) h = refl

  items_without :
      (env : Text → Text) (a : Items) → list_references a ≡ [] → substitute_list_env env a ≡ (a, [])
  items_without env nil h = refl
  items_without env (cons v a) h =
      ap₂ (λ p q. (cons p.0 q.0, p.1 ++ q.1))
        (value_without env v (append-nil-left (references v) (list_references a) h))
        (items_without env a (append-nil-right (references v) (list_references a) h))

  fields_without :
      (env : Text → Text) (m : Fields) → map_references m ≡ [] → substitute_map_env env m ≡ (m, [])
  fields_without env (field k v m) h =
      either-same (is_skipped k) _ _ (field k v m, []) (map_references m)
        (references v ++ map_references m) h
        (λ e. ap (λ q. (field k v q.0, q.1)) (fields_without env m e))
        (λ e.
          ap₂ (λ p q. (field k p.0 q.0, p.1 ++ q.1))
            (value_without env v (append-nil-left (references v) (map_references m) e))
            (fields_without env m (append-nil-right (references v) (map_references m) e)))
  fields_without env end h = refl

-- A configuration without references outside the values under connectionStringRef is not changed by
-- the substitution, and no name is reported.
substitute_env_vars-id :
    (env : Text → Text) (m : Fields) → map_references m ≡ [] → substitute_env_vars env m ≡ (m, [])
unfolding substitute_env_vars
substitute_env_vars-id env m h = fields_without env m h
