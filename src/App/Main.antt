-- ===== src/App/Main.antt =====
-- crates/app/src/main.rs, up to the wait for ctrl-c. What the environment, the database and the
-- spawned actor answer is an argument. An error is boxed; what is made of it is its text.
pub mod Boot
pub mod Shutdown
use fraud_guard.Base.{
  ℕ, String, ◌<>◌, List, [], Option, none, some, Result, ok, err, ◌>>=◌, map_err,
}
use fraud_guard.Domain.Crates.{Crates}
use fraud_guard.Domain.Error.{to_string}
use fraud_guard.Storage.Db.{Db}
use fraud_guard.Storage.Repo.{RuleRow, load_active_rules}
use fraud_guard.App.Config.{ConfigError, generic, Config, from_env}
use fraud_guard.App.Consumer
use fraud_guard.App.Consumer.{ConsumerActor, on_start, start_consuming}
use fraud_guard.App.Engine
use fraud_guard.App.Engine.{EngineActor}
use fraud_guard.App.Pipeline.{Pipeline}
use fraud_guard.App.Pipeline.Start.{queue_name}

-- The `#[error]` attribute: `Display`.
abbrev pub config_text : ConfigError → String
config_text (generic message) = "Configuration error: " <> message

module _ ⦃X : Crates⦄ where
  pub record Outside : Type 0 where
    pub parse : String → Result ℕ String
    pub var : String → Result String String
    pub connect : String → Result (Unit {0}) String
    pub fetched : Result (List RuleRow) String
    pub told : Result (Unit {0}) String  -- of `StartConsuming`

  -- The actors at their mailboxes; `none` where the consumer has panicked.
  abbrev pub joined : Option ConsumerActor → EngineActor → Db → Option Pipeline
  joined none engine db = none
  joined (some consumer) engine db = some (record {
    inbox = [];
    consumer = consumer;
    requests = [];
    engine = engine;
    results = [];
    db = db;
    replies = [];
    seen = [];
    lost = [];
  })

  unfoldable pub boot : Outside → Db → Result (Option Pipeline) String
  boot o db = do
    config ← map_err config_text (from_env o.parse o.var)
    _ ← o.connect config.database_url
    initial_rules ← map_err to_string (load_active_rules o.fetched)
    let consumer = on_start (Consumer.new config.amqp_url queue_name)
    let engine = Engine.new (some initial_rules)
    _ ← o.told
    ok (joined (start_consuming consumer) engine db)
