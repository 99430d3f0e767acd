-- ===== src/App/Main/Boot.antt =====
-- When the program starts, and what then runs.
use fraud_guard.Base.{List, ok, ◌≡◌}
use fraud_guard.Domain.Crates.{Crates}
use fraud_guard.Domain.Rule.{Rule}
use fraud_guard.Storage.Db.{Db}
use fraud_guard.Storage.Repo.{load_active_rules}
use fraud_guard.App.Config.{Config, from_env}
use fraud_guard.App.Consumer
use fraud_guard.App.Engine
use fraud_guard.App.Pipeline.{Pipeline}
use fraud_guard.App.Pipeline.Start.{start}
use fraud_guard.App.Main.{Outside}

module _ ⦃X : Crates⦄ where
  -- What has to go well, and the pipeline that then runs.
  pub record Boots (o : Outside) (db : Db) (p : Pipeline) (config : Config) (rules : List Rule)
      : Type 0 where
    pub configured : from_env o.parse o.var ≡ ok config
    pub connected : o.connect config.database_url ≡ ok tt
    pub loaded : load_active_rules o.fetched ≡ ok rules
    pub told : o.told ≡ ok tt
    pub runs : p ≡ start config.amqp_url (record { rules = rules }) db
