-- ===== src/App/Reconnect.antt =====
-- crates/api/src/amqp/amqp_consumer.rs: `run_consumer` calls `connect_and_consume` again when a
-- connection has ended. The next one has a channel of its own, whose tags begin anew, but the same
-- handler and the same channel of commands: the actors and their mailboxes know nothing of it. What
-- the pipeline records of the queue (its answers, the tags that came) is about the last connection.
pub mod Fresh
pub mod Once
pub mod Stale
use fraud_guard.Base.{List, [], ◌∷◌}
use fraud_guard.Domain.Crates.{Crates}
use fraud_guard.App.Pipeline.{Pipeline, Action, step}

module _ ⦃X : Crates⦄ where
  -- A turn of a task, or the end of a connection and the beginning of the next.
  pub data Move : Type 0 where
    turn : Action → Move
    reconnect : Move

  unfoldable pub reconnected : Pipeline → Pipeline
  reconnected p = record p { replies = []; seen = []; lost = [] }

  unfoldable pub resume : List Move → Pipeline → Pipeline
  unfolding reconnected
  resume [] p = p
  resume (turn action ∷ moves) p = resume moves (step action p)
  resume (reconnect ∷ moves) p = resume moves (reconnected p)

  -- The turns of a history.
  abbrev pub turns : List Move → List Action
  turns [] = []
  turns (turn action ∷ moves) = action ∷ turns moves
  turns (reconnect ∷ moves) = turns moves
