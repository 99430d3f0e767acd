-- ===== src/App/Config/Laws.antt =====
-- Which environments give a configuration.
use fraud_guard.Base.{ℕ, String, Result, ok, err, ◌≡◌, ◌↔◌, arith}
use fraud_guard.App.Config.{Config, required, interval, from_env}

-- The number of a variable that is set, or 60.
abbrev pub IsInterval : (String → Result ℕ String) → Result String String → ℕ → Type 0
IsInterval parse (ok s) n = parse s ≡ ok n
IsInterval parse (err e) n = n ≡ 60

interval-eq-ok_iff :
    (parse : String → Result ℕ String) (found : Result String String) (n : ℕ)
    → (interval parse found ≡ ok n) ↔ IsInterval parse found n
interval-eq-ok_iff parse (ok s) n = ground arith
interval-eq-ok_iff parse (err e) n = ground arith

required-eq-ok_iff :
    (var : String → Result String String) (name value : String)
    → (required var name ≡ ok value) ↔ (var name ≡ ok value)
required-eq-ok_iff var name value = ground arith

-- A configuration is read exactly if the three texts are set, and the interval is a number or not
-- set, in which case it is 60 seconds.
pub from_env-eq-ok_iff :
    (parse : String → Result ℕ String) (var : String → Result String String) (c : Config)
    → (from_env parse var ≡ ok c) ↔ (
        (var "DATABASE_URL" ≡ ok c.database_url)
        × (var "AMQP_URL" ≡ ok c.amqp_url)
        × (var "RUST_LOG" ≡ ok c.log_level)
        × IsInterval parse (var "RULES_REFRESH_INTERVAL_SECS") c.rules_refresh_interval_secs)
unfolding from_env
from_env-eq-ok_iff parse var c =
    let i =
      interval-eq-ok_iff parse (var "RULES_REFRESH_INTERVAL_SECS") c.rules_refresh_interval_secs in
    (
      λ h. (ground arith, ground arith, ground arith, i.0 (ground arith)),
      λ (d, a, l, n). ground (arith, i.1 n, d, a, l),
    )
