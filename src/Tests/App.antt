-- ===== src/Tests/App.antt =====
-- The configuration and the consumer actor.
use fraud_guard.Base.{
  ℕ, String, List, [], ◌∷◌, some, true, Result, ok, err, ◌=s=◌, if◌then◌else◌, ◌≡◌, ◌↔◌, refl,
}
use fraud_guard.Domain.Error.{repository}
use fraud_guard.Api.Consumer
use fraud_guard.App.Messages.{AckMessage}
use fraud_guard.App.Consumer.{ConsumerActor, ack_message, remove}
use fraud_guard.App.Consumer.PendingSet.{member}
use fraud_guard.App.Consumer.Machine.{view, handle_all, all_on_set, handle_all-view}
use fraud_guard.App.Pipeline.{ConsumerMessage, store, settle}
use fraud_guard.App.Pipeline.Tokens.{pending_after}
use fraud_guard.App.Config.{Config, from_env}
use fraud_guard.App.Config.Laws.{IsInterval, from_env-eq-ok_iff}

abbrev pub parse : String → Result ℕ String
parse s = if s =s= "15" then ok 15 else err "invalid digit found in string"

-- The interval is not set.
abbrev pub var : String → Result String String
var name =
    if name =s= "RULES_REFRESH_INTERVAL_SECS" then err "environment variable not found" else ok name

abbrev config : Config
config = record {
  database_url = "DATABASE_URL";
  amqp_url = "AMQP_URL";
  log_level = "RUST_LOG";
  rules_refresh_interval_secs = 60;
}

by_default : from_env parse var ≡ ok config
unfolding from_env
by_default = refl

from_env-eq-ok_iff_run : (from_env parse var ≡ ok config) ↔ (
    (var "DATABASE_URL" ≡ ok config.database_url)
    × (var "AMQP_URL" ≡ ok config.amqp_url)
    × (var "RUST_LOG" ≡ ok config.log_level)
    × IsInterval parse (var "RULES_REFRESH_INTERVAL_SECS") config.rules_refresh_interval_secs)
from_env-eq-ok_iff_run = from_env-eq-ok_iff parse var config

unfoldable actor : ConsumerActor
unfolding Consumer.new
actor = record {
  amqp_url = "amqp://localhost";
  queue_name = "transactions";
  actor_ref = true;
  pending = 8 ∷ 7 ∷ [];
  amqp_consumer = some (Consumer.new "amqp://localhost" "transactions");
}

abbrev stored_well : AckMessage
stored_well = record { correlation_id = 7; result = ok tt }

abbrev stored_ill : AckMessage
stored_ill = record {
  correlation_id = 7;
  result = err (repository "begin db transaction" "timeout");
}

left_pending : (ack_message actor stored_well).pending ≡ 8 ∷ []
unfolding ack_message remove actor
left_pending = refl

-- The second settlement of the delivery 7 finds it settled.
abbrev messages : List ConsumerMessage
messages = store (record { correlation_id = 9 }) ∷ settle stored_well ∷ settle stored_ill ∷ []

handle_all-view_example :
    (view (handle_all messages actor) ≡ all_on_set messages (view actor))
    × ((j : ℕ)
        → member j (view (handle_all messages actor)).0
          ≡ pending_after j (member j (view actor).0) messages)
handle_all-view_example = handle_all-view messages actor
