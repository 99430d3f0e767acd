-- ===== src/App/Pipeline/Leak.antt =====
-- A delivery that is refused after it was noted: its tag in the pending set.
use fraud_guard.Base.{
  ℕ, String, List, [], ◌∷◌, ◌++◌, true, ok, err, ◌==◌, ◌≡◌, refl, arith, count_if, count_if-append,
}
use fraud_guard.Domain.Crates.{Crates}
use fraud_guard.Domain.Transaction.{TransactionRequest}
use fraud_guard.Storage.Db.{Db}
use fraud_guard.Api.EventLoop.{basic_nack}
use fraud_guard.Api.Delivery.{parse_delivery}
use fraud_guard.App.Consumer.{contains, Links, handle_transaction}
use fraud_guard.App.Engine.{EngineActor}
use fraud_guard.App.Pipeline.{Pipeline, Action, deliver, receive, hand_over, step, run}
use fraud_guard.App.Pipeline.Tokens.{
  pending_after, pending_after-append, settles, requests_it, results_it,
}
use fraud_guard.App.Pipeline.Settlement.{deliveries, run-Inv, start-Inv}
use fraud_guard.App.Pipeline.Start.{start}
use fraud_guard.App.Pipeline.Stuck.{Stuck, run-Stuck}

module _ ⦃X : Crates⦄ (t : ℕ) where
  abbrev refused : (m : String) → Links
  refused m = record { upgrade = true; store = ok tt; evaluate = err m }

  refuse-Stuck :
      (m : String) (tx : TransactionRequest) (p : Pipeline)
      → count_if (requests_it t) p.requests ≡ 0
      → count_if (results_it t) p.results ≡ 0
      → count_if (settles t) p.inbox ≡ 0
      → Stuck t (receive (ok tx) t (refused m) p)
        × ((receive (ok tx) t (refused m) p).replies ≡ p.replies ++ (basic_nack t ∷ []))
  unfolding receive hand_over handle_transaction
  refuse-Stuck m tx p requests results read =
      let same : (t == t) ≡ true = ground arith in
      (
        record {
          pending = rw (pending_after-append, same) refl;
          read = rw (count_if-append, read) refl;
          requests = requests;
          results = results;
        },
        refl,
      )

  -- If a delivery whose payload parses is noted by the consumer and then refused by the engine's
  -- mailbox, and its tag is not delivered before or after, then the queue is sent a nack for it, and in
  -- every history that follows its tag is pending, or is so once the consumer has read its mailbox,
  -- with no settlement for it under way: it is never taken out.
  pub refused_pending :
      (url : String) (engine : EngineActor) (db : Db) (before after : List Action)
      (now : X.DateTime) (payload : String) (tx : TransactionRequest) (m : String)
      → parse_delivery now (record { delivery_tag = t; payload = payload }) ≡ ok tx
      → deliveries t before ≡ 0
      → deliveries t after ≡ 0
      → let p = run before (start url engine db) in
        let a =
          deliver now
            (record { delivery_tag = t; payload = payload })
            (record { upgrade = true; store = ok tt; evaluate = err m }) in
        let q = run after (step a p) in
        ((step a p).replies ≡ p.replies ++ (basic_nack t ∷ []))
        × (pending_after t (contains t q.consumer.pending) q.inbox ≡ true)
        × (count_if (settles t) q.inbox ≡ 0)
  unfolding step start
  refused_pending url engine db before after now payload tx m parses none_before none_after =
      let p = run before (start url engine db) in
      let (v, e) =
        run-Inv t before (start url engine db) (omega (arith, none_before))
          (start-Inv t url engine db) in
      let s = record p { seen = t ∷ p.seen } in
      let (stuck, replies) =
        refuse-Stuck m tx s (omega (arith, v.account.counted, e, none_before))
          (omega (arith, v.account.counted, e, none_before))
          (omega (arith, v.account.counted, e, none_before)) in
      let w = run-Stuck t after (receive (ok tx) t (refused m) s) none_after stuck in
      rw parses (replies, w.pending, w.read)
