-- ===== src/Tests/Unit.antt =====
-- The unit tests and the integration tests of the repository, run on the model: each test is a
-- function, `ok true` where it passes. An `unwrap` is a step of a do block, so that a panic is an error.
mod Rules
mod Transactions
mod Engine
mod Sink
mod Integration
