-- ===== src/App/Config.antt =====
-- crates/app/src/config.rs. The environment is an argument, the lookup `env::var`; `dotenvy`, which
-- may add to it, has run before.
pub mod Laws
use fraud_guard.Base.{ℕ, String, ◌<>◌, Result, ok, err, ◌>>=◌, map_err}

pub data ConfigError : Type 0 where
  generic : (message : String) → ConfigError

pub record Config : Type 0 where
  pub database_url : String
  pub amqp_url : String
  pub log_level : String
  pub rules_refresh_interval_secs : ℕ  -- u64

-- `env::var(name).map_err(|e| ConfigError::Generic(format!("{name}: {}", e)))`
abbrev pub required : (String → Result String String) → String → Result String ConfigError
required var name = map_err (λ e. generic (name <> (": " <> e))) (var name)

-- `.ok().map(…).transpose()?.unwrap_or(60)`, where `parse` is `str::parse::<u64>`.
abbrev pub interval : (String → Result ℕ String) → Result String String → Result ℕ ConfigError
interval parse (err e) = ok 60
interval parse (ok s) = map_err (λ e. generic ("RULES_REFRESH_INTERVAL_SECS: " <> e)) (parse s)

unfoldable pub from_env :
    (String → Result ℕ String) → (String → Result String String) → Result Config ConfigError
from_env parse var = do
  database_url ← required var "DATABASE_URL"
  amqp_url ← required var "AMQP_URL"
  log_level ← required var "RUST_LOG"
  rules_refresh_interval_secs ← interval parse (var "RULES_REFRESH_INTERVAL_SECS")
  ok (record {
    database_url = database_url;
    amqp_url = amqp_url;
    log_level = log_level;
    rules_refresh_interval_secs = rules_refresh_interval_secs;
  })
