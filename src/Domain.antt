-- ===== src/Domain.antt =====
-- crates/domain: the types of the domain and the evaluation of rules.
pub mod Error
pub mod Decision
pub mod Params
pub mod Crates
pub mod AccountId
pub mod Currency
pub mod Transaction
pub mod Rule
pub mod Repository
