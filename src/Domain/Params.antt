-- ===== src/Domain/Params.antt =====
-- The structures that serde fills: the parameters of the two kinds of rule
-- (crates/domain/src/rule.rs) and the message of the queue
-- (crates/api/src/amqp/amqp_consumer.rs).
use fraud_guard.Base.{String, List, Option}
use fraud_guard.Base.Int.{ℤ}

pub record AmountLimitParams : Type 0 where
  pub max_amount : ℤ

pub record BlacklistParams : Type 0 where
  pub blacklisted_accounts : List String

pub record TransactionMessage : Type 0 where
  pub transaction_id : String
  pub source_account : String
  pub destination_account : String
  pub amount : ℤ
  pub currency : String
  pub timestamp : Option ℤ
