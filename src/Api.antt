-- ===== src/Api.antt =====
-- crates/api: the client of the message queue.
pub mod Delivery
pub mod Consumer
pub mod EventLoop
pub mod Connection
