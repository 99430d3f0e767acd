-- ===== src/App/Pipeline/Settlement.antt =====
-- What a whole history does with one delivery.
use fraud_guard.Base.{
  ℕ, ◌+◌, ◌≤◌, List, [], ◌∷◌, Bool, true, false, Option, none, some, Result, String, ok, err, ◌==◌,
  ◌≡◌, refl, arith, count_if, Option-cases,
}
use fraud_guard.Domain.Crates.{Crates}
use fraud_guard.Domain.Transaction.{TransactionRequest}
use fraud_guard.Api.Consumer.{AmqpConsumer}
use fraud_guard.Api.Delivery.{parse_delivery}
use fraud_guard.Storage.Db.{Db}
use fraud_guard.Storage.Sink.{Faults}
use fraud_guard.App.Messages.{PersistResults}
use fraud_guard.App.Sink.{persist_results}
use fraud_guard.App.Consumer.{Links}
use fraud_guard.App.Engine.{EngineActor}
use fraud_guard.App.Pipeline.{
  ConsumerMessage, store, settle, EngineMessage, evaluate, update, Pipeline, Action, deliver,
  consumer_turn, engine_turn, sink_turn, refresh, client_turn, hand_over, tell_consumer, consume,
  process, persist, answer, receive, step, run,
}
use fraud_guard.App.Pipeline.Start.{start}
use fraud_guard.App.Pipeline.Tokens.{settles, is_tag, in_channel, in_work, answered, Inv}
use fraud_guard.App.Pipeline.Receive.{receive-Inv}
use fraud_guard.App.Pipeline.Moves.{consume-Inv}
use fraud_guard.App.Pipeline.Forward.{refresh-Inv, process-Inv, answer-Inv, persist-Inv}

module _ ⦃X : Crates⦄ (t : ℕ) where
  -- Does the action deliver the tag?
  abbrev pub delivers : Action → Bool
  delivers (deliver now d links) = d.delivery_tag == t
  delivers consumer_turn = false
  delivers (engine_turn sink_runs) = false
  delivers (sink_turn faults consumer_runs) = false
  delivers (refresh rules) = false
  delivers client_turn = false

  -- How often the history delivers the tag.
  abbrev pub deliveries : List Action → ℕ
  deliveries actions = count_if delivers actions

  -- How often the tag was seen.
  abbrev pub sightings : Pipeline → ℕ
  sightings p = count_if (is_tag t) p.seen

  receive-seen :
      (parsed : Result TransactionRequest String) (tag : ℕ) (links : Links) (p : Pipeline)
      → (receive parsed tag links p).seen ≡ p.seen
  unfolding receive hand_over
  receive-seen (ok tx) tag links p = refl
  receive-seen (err e) tag links p = refl

  consume-seen : (inbox : List ConsumerMessage) (p : Pipeline) → (consume inbox p).seen ≡ p.seen
  unfolding consume
  consume-seen [] p = refl
  consume-seen (store msg ∷ rest) p = refl
  consume-seen (settle msg ∷ rest) p = refl

  process-seen :
      (sink_runs : Bool) (requests : List EngineMessage) (p : Pipeline)
      → (process sink_runs requests p).seen ≡ p.seen
  unfolding process
  process-seen sink_runs [] p = refl
  process-seen sink_runs (update msg ∷ rest) p = refl
  process-seen true (evaluate msg ∷ rest) p = refl
  process-seen false (evaluate msg ∷ rest) p = refl

  persist-seen :
      (faults : ℕ → Faults) (consumer_runs : Bool) (results : List PersistResults) (p : Pipeline)
      → (persist faults consumer_runs results p).seen ≡ p.seen
  unfolding persist tell_consumer
  persist-seen faults consumer_runs [] p = refl
  persist-seen faults true (msg ∷ rest) p =
      ground (arith, Option-cases (persist_results faults msg p.db))
  persist-seen faults false (msg ∷ rest) p =
      ground (arith, Option-cases (persist_results faults msg p.db))

  answer-seen : (client : Option AmqpConsumer) (p : Pipeline) → (answer client p).seen ≡ p.seen
  unfolding answer
  answer-seen none p = refl
  answer-seen (some client) p = ground arith

  step-Inv :
      (a : Action) (p : Pipeline)
      → sightings p + count_if delivers (a ∷ []) ≤ 1
      → Inv t p
      → Inv t (step a p)
  unfolding step
  step-Inv (deliver now d links) p once v =
      receive-Inv t (parse_delivery now d) d.delivery_tag links p (λ hit. ground arith) v
  step-Inv consumer_turn p once v = consume-Inv t p.inbox p refl v
  step-Inv (engine_turn sink_runs) p once v = process-Inv t sink_runs p.requests p refl v
  step-Inv (sink_turn faults consumer_runs) p once v =
      persist-Inv t faults consumer_runs p.results p refl v
  step-Inv (refresh rules) p once v = refresh-Inv t rules p v
  step-Inv client_turn p once v = answer-Inv t p.consumer.amqp_consumer p refl v

  step-sightings :
      (a : Action) (p : Pipeline) → sightings (step a p) ≡ sightings p + count_if delivers (a ∷ [])
  unfolding step
  step-sightings (deliver now d links) p = ground (
    arith,
    receive-seen (parse_delivery now d) d.delivery_tag links
        (record p { seen = d.delivery_tag ∷ p.seen }),
  )
  step-sightings consumer_turn p = ground (arith, consume-seen p.inbox p)
  step-sightings (engine_turn sink_runs) p = ground (arith, process-seen sink_runs p.requests p)
  step-sightings (sink_turn faults consumer_runs) p =
      ground (arith, persist-seen faults consumer_runs p.results p)
  step-sightings (refresh rules) p = ground arith
  step-sightings client_turn p = ground (arith, answer-seen p.consumer.amqp_consumer p)

  pub run-Inv :
      (actions : List Action) (p : Pipeline)
      → sightings p + deliveries actions ≤ 1
      → Inv t p
      → Inv t (run actions p) × (sightings (run actions p) ≡ sightings p + deliveries actions)
  unfolding run
  run-Inv [] p once v = (v, ground arith)
  run-Inv (a ∷ actions) p once v =
      let more = step-sightings a p in
      let (w, e) =
        run-Inv actions (step a p) (ground (arith, more)) (step-Inv a p (ground arith) v) in
      (w, ground (arith, e, more))

  pub start-Inv : (url : String) (engine : EngineActor) (db : Db) → Inv t (start url engine db)
  unfolding start
  start-Inv url engine db = record {
    client = ground arith;
    account = record {
      counted = refl;
      once = ground arith;
      ready = tt;
      waiting = λ h. absurd (omega (arith, h));
    };
  }

  -- Nothing of the delivery is under way: no request, result, settlement or command for the tag is
  -- in a mailbox or channel, and none of its messages found its receiver stopped.
  pub record Quiet (p : Pipeline) : Type 0 where
    pub idle : in_work t p ≡ 0
    pub read : count_if (settles t) p.inbox ≡ 0
    pub sent : in_channel t p.consumer.amqp_consumer ≡ 0
    pub kept : count_if (is_tag t) p.lost ≡ 0

  -- In every history from the start that delivers the tag `t` at most once, the queue gets at most
  -- one answer for `t`.
  pub answered_once :
      (url : String) (engine : EngineActor) (db : Db) (actions : List Action)
      → deliveries actions ≤ 1
      → answered t (run actions (start url engine db)) ≤ 1
  unfolding start
  answered_once url engine db actions once =
      let (v, _) =
        run-Inv actions (start url engine db) (omega (arith, once)) (start-Inv url engine db) in
      omega (arith, v.account.counted, v.account.once)

  -- In every history from the start that delivers the tag `t` at most once, once nothing of the
  -- delivery is under way and none of its messages was lost to a stopped actor, the queue has had
  -- exactly as many answers for `t` as there were deliveries: one if it was delivered, and otherwise
  -- none.
  pub answered_all :
      (url : String) (engine : EngineActor) (db : Db) (actions : List Action)
      → deliveries actions ≤ 1
      → Quiet (run actions (start url engine db))
      → answered t (run actions (start url engine db)) ≡ deliveries actions
  unfolding start
  answered_all url engine db actions once q =
      let (v, e) =
        run-Inv actions (start url engine db) (omega (arith, once)) (start-Inv url engine db) in
      omega (arith, v.account.counted, e, q.idle, q.read, q.sent, q.kept)
