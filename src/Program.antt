-- ===== src/Program.antt =====
-- cmd/helpers/common.go: the environment of the programs, with "" for a variable that is not set.
use oafse.Common.{◌≡◌, String, if◌then◌else◌, str_eq, arith}

abbrev pub Env : Type 0
Env = String → String

-- `os.Setenv`
abbrev pub setenv : String → String → Env → Env
setenv key value env name = if str_eq key name then value else env name

unfoldable pub fallback_env : String → String → Env → Env
fallback_env key fallback_key env =
    if str_eq (env key) "" then setenv key (env fallback_key) env else env

-- The start of cmd/crawler/main.go, behind .env.
unfoldable pub crawler_env : Env → Env
unfolding fallback_env
crawler_env env =
    fallback_env "REDIS_DSN" "REDIS_LOCAL_DSN"
      (fallback_env "POSTGRES_DSN" "POSTGRES_LOCAL_DSN" env)

abbrev pub or_else : String → String → String
or_else value fallback = if str_eq value "" then fallback else value

-- Behind the two fallbacks each of the two addresses is the one that was set, or else its local one.
crawler_env_lem :
    (env : Env)
    → (crawler_env env "POSTGRES_DSN" ≡ or_else (env "POSTGRES_DSN") (env "POSTGRES_LOCAL_DSN"))
      × (crawler_env env "REDIS_DSN" ≡ or_else (env "REDIS_DSN") (env "REDIS_LOCAL_DSN"))
unfolding crawler_env fallback_env
crawler_env_lem env = (ground (arith), ground (arith))
