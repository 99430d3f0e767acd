-- ===== src/Lib.antt =====
-- Fraud guard: transactions are read from a queue, checked against rules, stored with a decision,
-- and answered with an ack or a nack.
--
-- The program's parts and how they interact. The client of the queue (crates/api) parses a delivery
-- and hands it to the consumer actor, which notes its tag as pending and passes the transaction to
-- the engine actor. The engine validates it, runs the rules, and passes the decision to the sink
-- actor. The sink stores both rows in one database transaction, with retries, and tells the
-- consumer the result, which sends the client a command to ack or to nack. A background task loads
-- the rules anew and gives them to the engine.
--
-- Which file models which part:
--   Base      what the modules share: results, lists over native numbers, texts, 64-bit amounts as
--             integers
--   Domain    crates/domain/src: error.rs (Error), decision.rs (Decision), transaction.rs (AccountId,
--             Currency, Transaction), rule.rs (Rule, Params), repository.rs (Repository);
--             Crates holds what the program uses of
--             chrono, uuid and serde_json, as an instance argument
--   Storage   crates/storage/src/postgres: sink_repo.rs (Sink, over the tables of Db and Table, which
--             are those of crates/storage/migrations; SinkRepository is the interface of
--             crates/storage/src/sink_repo.rs), rule_repo.rs, transaction_repo.rs and
--             decision_repo.rs (Repo, method by method; Postgres, as implementations of the traits;
--             Select, what a SELECT fetches)
--   Api       crates/api/src/amqp/amqp_consumer.rs: parse_delivery (Delivery), AmqpConsumer and
--             run_consumer (Consumer), connect_and_consume (Connection: the requests that set up the
--             queues; EventLoop: its loop)
--   App       crates/app/src: actors/messages.rs (Messages), engine.rs (Engine), sink.rs (Sink),
--             consumer.rs (Consumer), config.rs (Config), rules_cache.rs (RulesCache), main.rs (Main:
--             what comes before ctrl-c in Boot, what comes after it in Shutdown). Three modules put
--             the parts together: Pipeline joins the actors and the client by mailboxes as main.rs
--             does; Reconnect adds the ends of connections, as in run_consumer; Backpressure has the
--             same tasks with bounded mailboxes and each await as a point of its own
--   Tests     concrete runs, with sample crates in Tests/Sample, and in Tests/Unit the unit tests that
--             stand in rule.rs, transaction.rs, engine.rs and sink.rs, and the tests of
--             crates/app/tests/integration.rs
--
-- State and operations. A handler of an actor is a function from its state and a message to its new
-- state and the messages that it sends. The outcome of a call that leaves the program (a statement
-- of the database, a request to the broker, a commit, a `tell` to an actor that may have stopped, a
-- parse by a crate) is an argument, so that a theorem is about every such outcome. In App/Pipeline
-- a history is a list of turns of the tasks in any order; in App/Main/Shutdown, App/Reconnect and
-- App/Backpressure the turns are mixed with the steps of main after ctrl-c, with ends of
-- connections, and with waits. Numbers that the code keeps in i64 or i32 are only compared and
-- printed and are integers here; delivery tags and delays are natural numbers, and the largest
-- delays (120 s before `min`, 400 ms) are far from the width of their types.
--
-- Fuel. Only Storage/Sink.insert_loop has fuel, one unit for each attempt: its three units are the
-- three attempts that the code makes, since the guard of the loop admits no fourth.
--
-- Bounds. The channel of commands holds 100, as in AmqpConsumer::new. The capacity of the mailboxes
-- is kameo's, and an argument of App/Backpressure. In App/Pipeline, App/Reconnect and
-- App/Main/Shutdown the mailboxes and the channel (send_ack and send_nack) have no bound, and the
-- two tells of handle_transaction (hand_over) are one step: those modules say what cannot happen,
-- and App/Backpressure says what waiting adds, which can be for ever.
--
-- Assumed of kameo: a mailbox is first in, first out; `tell` waits while the mailbox is full and
-- fails when the actor has stopped; `stop_gracefully` lets an actor handle what its mailbox holds
-- at that time. Assumed of tokio: a task that is aborted ends at its next await, so that it has no
-- turn after the abort.
--
-- Not modelled: logging, metrics and tracing; timers; what a broker does with an answer for a tag
-- that it does not know, and with a queue that it has with other arguments. What a SELECT fetches
-- is documented by SQL and a hypothesis of the theorems about it (IsSelect). The crates behind
-- Domain/Crates are assumed to order times totally and to compare identifiers by equality where a
-- theorem takes `IsLawful`.
pub mod Base
pub mod Domain
pub mod Storage
pub mod Api
pub mod App
mod Tests
