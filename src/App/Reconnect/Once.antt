-- ===== src/App/Reconnect/Once.antt =====
-- How often a delivery of the new connection is answered.
use fraud_guard.Base.{ℕ, ◌≤◌, String, List, [], ◌∷◌, Bool, none, ◌≡◌, ◌≢◌, arith, count_if}
use fraud_guard.Domain.Crates.{Crates}
use fraud_guard.Storage.Db.{Db}
use fraud_guard.App.Engine.{EngineActor}
use fraud_guard.App.Pipeline.{ConsumerMessage, store, settle, Pipeline, Action, step, run}
use fraud_guard.App.Pipeline.Tokens.{settles, Ready, answered, Inv}
use fraud_guard.App.Pipeline.Settlement.{deliveries, run-Inv}
use fraud_guard.App.Pipeline.Start.{start}
use fraud_guard.App.Pipeline.Client.{step-client}
use fraud_guard.App.Reconnect.{Move, turn, reconnect, reconnected, resume}
use fraud_guard.App.Reconnect.Fresh.{Clear}

Ready-unless :
    (t : ℕ) (inbox : List ConsumerMessage) (b : Bool)
    → count_if (settles t) inbox ≡ 0
    → Ready t b inbox
Ready-unless t [] b e = tt
Ready-unless t (store msg ∷ rest) b e = Ready-unless t rest _ e
Ready-unless t (settle msg ∷ rest) b e =
    (λ h. absurd (ground (arith, h)), Ready-unless t rest _ (ground arith))

module _ ⦃X : Crates⦄ where
  Clear-Inv :
      (t : ℕ) (p : Pipeline) → Clear t p → p.consumer.amqp_consumer ≢ none → Inv t (reconnected p)
  unfolding reconnected
  Clear-Inv t p q c = record {
    client = c;
    account = record {
      counted = omega (arith, q.idle, q.read, q.sent);
      once = omega arith;
      ready = Ready-unless t p.inbox _ q.read;
      waiting = λ h. absurd (omega (arith, h, q.idle));
    };
  }

  resume-client :
      (moves : List Move) (p : Pipeline)
      → p.consumer.amqp_consumer ≢ none
      → (resume moves p).consumer.amqp_consumer ≢ none
  unfolding resume reconnected
  resume-client [] p c = c
  resume-client (turn a ∷ moves) p c = resume-client moves (step a p) (step-client a p c)
  resume-client (reconnect ∷ moves) p c = resume-client moves (reconnected p) c

  -- After any history with any number of connections that ended, if nothing of the tag was under way
  -- when the last one ended, and the new connection delivers the tag at most once, then the queue gets
  -- at most one answer for it on the new connection.
  pub reconnected_once :
      (url : String) (engine : EngineActor) (db : Db) (before : List Move) (actions : List Action)
      (t : ℕ)
      → Clear t (resume before (start url engine db))
      → deliveries t actions ≤ 1
      → answered t (run actions (reconnected (resume before (start url engine db)))) ≤ 1
  unfolding start reconnected
  reconnected_once url engine db before actions t q once =
      let p = resume before (start url engine db) in
      let c = resume-client before (start url engine db) (ground arith) in
      let (v, _) = run-Inv t actions (reconnected p) (omega (arith, once)) (Clear-Inv t p q c) in
      omega (arith, v.account.counted, v.account.once)
