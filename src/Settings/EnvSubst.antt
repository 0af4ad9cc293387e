-- ===== src/Settings/EnvSubst.antt =====
-- Environment variables in a parsed configuration (internal/config/envsubst.go). The code writes in place
-- and collects the unresolved names, here the result and the names in the order of the walk; an
-- environment is a function, empty where a variable is not set.
pub mod References
use cannectors.Prelude.{
  ℕ, zero, suc, ◌+◌, Bool, true, false, ◌&&◌, ◌||◌, Option, none, some, List, [], ◌∷◌, ◌++◌, length,
  take, Text, codes, same, is_blank, leb, ◌==◌, if◌then◌else◌,
}
use cannectors.Value.{
  Value, null, bool, int, float, text, array, object, Items, nil, cons, Fields, end, field,
}

-- [A-Z_] and [A-Z0-9_]
abbrev pub is_first : ℕ → Bool
is_first c = (leb 65 c && leb c 90) || c == 95

abbrev pub is_later : ℕ → Bool
is_later c = is_first c || (leb 48 c && leb c 57)

-- the rest of a name, up to the closing brace
unfoldable pub name_rest : Text → Option Text
name_rest [] = none
name_rest (c ∷ s) = elim (c == 125) [
  | true ↦ some []
  | false ↦ elim (is_later c) [
    | false ↦ none
    | true ↦ elim (name_rest s) [ none ↦ none | some n ↦ some (c ∷ n) ]
  ]
]

-- the name of the reference that starts here: a match of envVarPattern
unfoldable pub name_at : Text → Option Text
unfolding name_rest
name_at (a ∷ b ∷ c ∷ s) =
    if (a == 36) && ((b == 123) && is_first c)
    then elim (name_rest s) [ none ↦ none | some n ↦ some (c ∷ n) ]
    else none
name_at s = none

-- A walk over a text: the bytes between references, and the references by their names.
pub data Part : Type 0 where
  byte : ℕ → Part
  variable : Text → Part

-- `n` bytes of a match are left.
unfoldable pub parts : ℕ → Text → List Part
unfolding name_at
parts n [] = []
parts (suc n) (c ∷ s) = parts n s
parts zero (c ∷ s) = elim (name_at (c ∷ s)) [
  | none ↦ byte c ∷ parts zero s
  | some name ↦ variable name ∷ parts (length name + 2) s
]

-- ReplaceAllStringFunc: a reference that is not resolved stays, and its name is reported.
unfoldable pub replace : (Text → Text) → List Part → Text × List Text
replace env [] = ([], [])
replace env (byte c ∷ ps) = let (s, missing) = replace env ps in (c ∷ s, missing)
replace env (variable name ∷ ps) =
    let (s, missing) = replace env ps in
    if is_blank (env name)
    then (codes "${" ++ (name ++ (codes "}" ++ s)), name ∷ missing)
    else (env name ++ s, missing)

-- substituteStringEnv
unfoldable pub substitute_string_env : (Text → Text) → Text → Text × List Text
unfolding parts replace
substitute_string_env env s = replace env (parts 0 s)

-- envSubstSkippedKeys
abbrev pub is_skipped : Text → Bool
is_skipped key = same key (codes "connectionStringRef")

-- substituteValueEnv, substituteMapEnv and the loop over a list
unfoldable mutual
  unfolding substitute_string_env same

  pub substitute_value_env : (Text → Text) → Value → Value × List Text
  substitute_value_env env (text s) =
      let (s', missing) = substitute_string_env env s in (text s', missing)
  substitute_value_env env (object m) =
      let (m', missing) = substitute_map_env env m in (object m', missing)
  substitute_value_env env (array a) =
      let (a', missing) = substitute_list_env env a in (array a', missing)
  substitute_value_env env null = (null, [])
  substitute_value_env env (bool b) = (bool b, [])
  substitute_value_env env (int z) = (int z, [])
  substitute_value_env env (float f) = (float f, [])

  pub substitute_list_env : (Text → Text) → Items → Items × List Text
  substitute_list_env env nil = (nil, [])
  substitute_list_env env (cons v a) =
      let (v', missing) = substitute_value_env env v in
      let (a', others) = substitute_list_env env a in (cons v' a', missing ++ others)

  pub substitute_map_env : (Text → Text) → Fields → Fields × List Text
  substitute_map_env env end = (end, [])
  substitute_map_env env (field k v m) =
      let (v', missing) = substitute_value_env env v in
      let (m', others) = substitute_map_env env m in
      if is_skipped k then (field k v m', others) else (field k v' m', missing ++ others)

-- SubstituteEnvVars: the new configuration, or the names, before they are sorted
unfoldable pub substitute_env_vars : (Text → Text) → Fields → Fields × List Text
unfolding substitute_map_env
substitute_env_vars env data_map = substitute_map_env env data_map
