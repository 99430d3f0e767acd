-- ===== src/Tests.antt =====
-- Runs of the model over sample crates, and the theorems at concrete data.
mod Sample
mod Pools
mod Domain
mod Engine
mod Storage
mod Pipeline
mod Api
mod Connection
mod Tables
mod Periods
mod Repositories
mod App
mod Main
mod Backpressure
mod Reconnect
mod Unit
