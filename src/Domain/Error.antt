-- ===== src/Domain/Error.antt =====
-- crates/domain/src/error.rs
use fraud_guard.Base.{String, ◌<>◌}

pub data DomainError : Type 0 where
  validation : String → DomainError
  param_parse : (rule_code message : String) → DomainError
  repository : (operation message : String) → DomainError

-- The `#[error]` attributes: `Display`.
unfoldable pub to_string : DomainError → String
to_string (validation message) = "Validation error: " <> message
to_string (param_parse rule_code message) =
    "Parameter parsing error for rule " <> (rule_code <> (": " <> message))
to_string (repository operation message) =
    "Repository error while " <> (operation <> (": " <> message))
