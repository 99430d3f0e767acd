-- ===== src/Api/Connection.antt =====
-- crates/api/src/amqp/amqp_consumer.rs: `connect_and_consume` from the connection on: the requests
-- by which it sets up the queues, and the loop over the channel. What the broker (lapin) answers to
-- a request is an argument, a function on a state of its own.
pub mod SetUp
pub mod DeadLetters
pub mod Forever
use fraud_guard.Base.{ℕ, String, List, [], ◌∷◌, Bool, true, false, Result, ok, err}
use fraud_guard.Domain.Crates.{Crates}
use fraud_guard.Domain.Transaction.{TransactionRequest}
use fraud_guard.Api.EventLoop.{Event, Session, running, returned, run}

abbrev pub dlx_exchange : String
dlx_exchange = "dlx.transaction"

abbrev pub dlq_queue : String
dlq_queue = "transaction.evaluation.dlq"

-- The kind that the code uses.
pub data ExchangeKind : Type 0 where
  direct : ExchangeKind

pub record QueueDeclareOptions : Type 0 where
  pub durable : Bool
  pub exclusive : Bool
  pub auto_delete : Bool

-- A table of fields whose values are texts.
abbrev pub FieldTable : Type 0
FieldTable = List (String × String)

pub data Request : Type 0 where
  connect : (amqp_url : String) → Request
  create_channel : Request
  exchange_declare : (exchange : String) (kind : ExchangeKind) (durable : Bool) → Request
  queue_declare : (queue : String) (options : QueueDeclareOptions) (args : FieldTable) → Request
  queue_bind : (queue exchange routing_key : String) → Request
  basic_consume : (queue consumer_tag : String) → Request

abbrev pub durable_queue : QueueDeclareOptions
durable_queue = record { durable = true; exclusive = false; auto_delete = false }

abbrev pub dead_letter_args : FieldTable
dead_letter_args =
    ("x-dead-letter-exchange", dlx_exchange) ∷ ("x-dead-letter-routing-key", dlq_queue) ∷ []

-- The requests in the order of the code.
unfoldable pub set_up : String → String → List Request
set_up amqp_url queue_name =
    connect amqp_url
    ∷ create_channel
    ∷ exchange_declare dlx_exchange direct true
    ∷ queue_declare dlq_queue durable_queue []
    ∷ queue_bind dlq_queue dlx_exchange dlq_queue
    ∷ queue_declare queue_name durable_queue dead_letter_args
    ∷ basic_consume queue_name "fraud_guard_consumer"
    ∷ []

-- What was asked, and how it ended.
pub record Asked (B : Type 0) : Type 0 where
  pub asked : List Request
  pub broker : B
  pub result : Result (Unit {0}) String

module _ {B : Type 0} where
  abbrev pub before : Request → Asked B → Asked B
  before request a = record a { asked = request ∷ a.asked }

  -- Each request with `?`: the first error ends the set-up.
  unfoldable pub ask_all : (Request → B → B × Result (Unit {0}) String) → List Request → B → Asked B
  ask_all ask [] broker = record { asked = []; broker = broker; result = ok tt }
  ask_all ask (request ∷ requests) broker =
      let (broker', answer) = ask request broker in
      elim answer [
        | err e ↦ record { asked = request ∷ []; broker = broker'; result = err e }
        | ok _ ↦ before request (ask_all ask requests broker')
      ]

module _ ⦃X : Crates⦄ {B W : Type 0} (ask : Request → B → B × Result (Unit {0}) String)
    (handle_transaction : ℕ → TransactionRequest → W → Result (Unit {0}) String × W) where
  pub record Connection : Type 0 where
    pub asked : List Request
    pub broker : B
    pub session : Session handle_transaction

  abbrev pub consume :
      Result (Unit {0}) String → List (X.DateTime × Event) → W → Session handle_transaction
  consume (err e) events world = record { world = world; replies = []; control = returned (err e) }
  consume (ok _) events world =
      run handle_transaction events
        (record { world = world; replies = []; control = running true true })

  -- With the rounds of the loop that have passed; `control` says what it has returned, if it has.
  unfoldable pub connect_and_consume :
      String → String → List (X.DateTime × Event) → B → W → Connection
  connect_and_consume amqp_url queue_name events broker world =
      let a = ask_all ask (set_up amqp_url queue_name) broker in
      record { asked = a.asked; broker = a.broker; session = consume a.result events world }

  -- What the connections of `run_consumer` returned, one after the other, as far as they have ended.
  unfoldable pub results :
      String → String → List (List (X.DateTime × Event)) → B → W → List (Result (Unit {0}) String)
  results amqp_url queue_name [] broker world = []
  results amqp_url queue_name (events ∷ connections) broker world =
      let c = connect_and_consume amqp_url queue_name events broker world in
      elim c.session.control [
        | running stream_open commands_open ↦ []
        | returned r ↦ r ∷ results amqp_url queue_name connections c.broker c.session.world
      ]
