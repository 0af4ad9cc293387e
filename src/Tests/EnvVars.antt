-- ===== src/Tests/EnvVars.antt =====
-- The environment in a configuration (internal/config/envsubst.go): HOST is set, TOKEN is not.
use cannectors.Prelude.{◌≡◌, refl, [], ◌∷◌, Text, codes, same, if◌then◌else◌}
use cannectors.Value.{text, array, nil, cons, Fields, end, field}
use cannectors.Settings.EnvSubst.{substitute_env_vars}

abbrev host_only : Text → Text
host_only name = if same name (codes "HOST") then codes "db" else []

abbrev settings : Fields
settings = field (codes "url") (text (codes "x${HOST}/${host}")) (
    field (codes "connectionStringRef") (text (codes "${DB}"))
      (field (codes "auth") (array (cons (text (codes "${TOKEN}")) nil)) end))

abbrev resolved : Fields
resolved = field (codes "url") (text (codes "xdb/${host}")) (
    field (codes "connectionStringRef") (text (codes "${DB}"))
      (field (codes "auth") (array (cons (text (codes "${TOKEN}")) nil)) end))

host_is_put_in : substitute_env_vars host_only settings ≡ (resolved, codes "TOKEN" ∷ [])
unfolding substitute_env_vars
host_is_put_in = refl
