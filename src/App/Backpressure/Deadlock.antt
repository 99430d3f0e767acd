-- ===== src/App/Backpressure/Deadlock.antt =====
-- A history that ends in two tasks that wait for each other.
use fraud_guard.Base.{ℕ, suc, ◌<◌, [], none, some, ok, ◌≡◌, refl, arith}
use fraud_guard.Domain.Crates.{Crates, IsLawful}
use fraud_guard.Domain.Transaction.{TransactionRequest}
use fraud_guard.Storage.Db.{Db}
use fraud_guard.Storage.Sink.{Faults}
use fraud_guard.Api.Delivery.{Delivery, parse_delivery}
use fraud_guard.Api.Consumer.{AckCommand}
use fraud_guard.App.Messages.{EvaluateTransactionRequest}
use fraud_guard.App.Engine.{EngineActor}
use fraud_guard.App.Backpressure.{commands_capacity, storing, Flow, deliver, move, Trail, next}
use fraud_guard.App.Backpressure.Wedged.{Wedged}
use fraud_guard.App.Backpressure.Rounds.{ready, tags, Trail-trans, settled, many_more, fill}

module _ ⦃X : Crates⦄ (capacity : ℕ) where
  -- With lawful crates, whatever the capacity of the mailboxes is, if it is not 0, and whatever faults
  -- the database has: if a stream of deliveries comes that all parse as transactions, some history of
  -- turns from the start, in which the first deliveries of the stream come in their order and each
  -- once, leads to a state in which the client's task and the consumer wait for each other.
  pub deadlock :
      IsLawful X
      → (faults : ℕ → Faults) (now : X.DateTime) (ds : ℕ → Delivery) (txs : ℕ → TransactionRequest)
        (engine : EngineActor) (db : Db)
      → ((k : ℕ) → parse_delivery now (ds k) ≡ ok (txs k))
      → 0 < capacity
      → (s : Flow) × (k : ℕ) × (msg : EvaluateTransactionRequest) × (cmd : AckCommand) × Trail
          capacity
          (ready capacity [] [] none [] [] engine db [] [])
          s
        × (s.seen ≡ tags capacity ds k)
        × Wedged capacity msg cmd s
  unfolding move
  deadlock L faults now ds txs engine db parses room =
      let (k1, commands, pending, db1, full, r1) =
        many_more capacity L faults now ds txs parses engine [] commands_capacity 0 [] [] db room
          (omega arith) in
      let (cmd, pending', db2, r2) =
        settled capacity L faults now ds txs parses engine [] k1 commands pending db1 room in
      let (k, inbox, requests, full', r3) =
        fill capacity L faults now ds txs parses engine [] capacity (suc k1) [] [] cmd commands
          pending' db2 (omega arith) refl in
      let msg : EvaluateTransactionRequest = record {
        tx = txs k;
        correlation_id = (ds k).delivery_tag;
      } in
      let t =
        ready capacity inbox requests (some cmd) commands pending' engine db2 []
          (tags capacity ds k) in
      let s : Flow = record t { client = storing msg; seen = tags capacity ds (suc k) } in
      (
        s,
        suc k,
        msg,
        cmd,
        next {t = t} (Trail-trans capacity r1 (Trail-trans capacity r2 r3)) (deliver now (ds k))
            (rw (parses k) refl),
        refl,
        record {
          client = refl;
          full_inbox = omega (arith, full');
          sending = refl;
          full_commands = omega (arith, full);
        },
      )
