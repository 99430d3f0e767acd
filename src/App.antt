-- ===== src/App.antt =====
-- crates/app: the actors and their messages, and the program's configuration.
pub mod Messages
pub mod Engine
pub mod Sink
pub mod Consumer
pub mod Pipeline
pub mod Config
pub mod RulesCache
pub mod Main
pub mod Backpressure
pub mod Reconnect
