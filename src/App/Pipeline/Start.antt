-- ===== src/App/Pipeline/Start.antt =====
-- The pipeline when `main` has started it (crates/app/src/main.rs): the consumer has handled
-- `StartConsuming`, and nothing has been delivered.
use fraud_guard.Base.{String, [], some, true}
use fraud_guard.Domain.Crates.{Crates}
use fraud_guard.Storage.Db.{Db}
use fraud_guard.Api.Consumer as Client
use fraud_guard.App.Consumer.{ConsumerActor}
use fraud_guard.App.Engine.{EngineActor}
use fraud_guard.App.Pipeline.{Pipeline}

abbrev pub queue_name : String
queue_name = "transaction.evaluation"

-- The consumer actor with its client.
unfoldable pub consuming : String → ConsumerActor
unfolding Client.new Client.start
consuming amqp_url = record {
  amqp_url = amqp_url;
  queue_name = queue_name;
  actor_ref = true;
  pending = [];
  amqp_consumer = some (Client.start (Client.new amqp_url queue_name)).0;
}

module _ ⦃X : Crates⦄ where
  unfoldable pub start : String → EngineActor → Db → Pipeline
  unfolding consuming
  start amqp_url engine db = record {
    inbox = [];
    consumer = consuming amqp_url;
    requests = [];
    engine = engine;
    results = [];
    db = db;
    replies = [];
    seen = [];
    lost = [];
  }
