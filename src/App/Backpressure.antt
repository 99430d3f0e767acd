-- ===== src/App/Backpressure.antt =====
-- The awaits of the actors and of the client's task (crates/app/src/actors, crates/api/src/amqp):
-- every mailbox is bounded, as kameo's are by default, and so is the channel of commands, and a task
-- that sends to a full one waits and does nothing else. The bound of the mailboxes is an argument.
-- All tasks run, so that no `tell` fails. The consumer's state is its pending set.
pub mod Settle
pub mod Wedged
pub mod Rounds
pub mod Deadlock
pub mod Sound
pub mod Turns
pub mod Origin
pub mod Acked
pub mod Tally
pub mod Counts
pub mod Once
use fraud_guard.Base.{
  ℕ, String, List, [], ◌∷◌, ◌++◌, ◌≡◌, Option, none, some, Result, ok, err, length, ltb,
  if◌then◌else◌,
}
use fraud_guard.Domain.Error.{DomainError}
use fraud_guard.Domain.Crates.{Crates}
use fraud_guard.Domain.Transaction.{TransactionRequest}
use fraud_guard.Domain.Rule.{Rule}
use fraud_guard.Storage.Db.{Db}
use fraud_guard.Storage.Sink.{Faults}
use fraud_guard.Api.Delivery.{Delivery, parse_delivery}
use fraud_guard.Api.Consumer.{AckCommand, ack, nack}
use fraud_guard.Api.EventLoop.{Reply, basic_nack, perform}
use fraud_guard.App.Messages.{AckMessage, EvaluateTransactionRequest, PersistResults}
use fraud_guard.App.Consumer.{contains, insert, remove}
use fraud_guard.App.Engine.{EngineActor, update_rules, evaluate_transaction}
use fraud_guard.App.Sink.{persist_results}
use fraud_guard.App.Pipeline.{ConsumerMessage, store, settle, EngineMessage, evaluate, update}

-- `mpsc::channel(100)`
abbrev pub commands_capacity : ℕ
commands_capacity = 100

-- The command of a result.
abbrev pub command_of : ℕ → Result (Unit {0}) DomainError → AckCommand
command_of corr_id (ok _) = ack corr_id
command_of corr_id (err e) = nack corr_id

-- The handler of `AckMessage` up to the await of the channel: the pending set, and what to send.
abbrev pub begin_settle : List ℕ → AckMessage → List ℕ × Option AckCommand
begin_settle pending msg =
    if contains msg.correlation_id pending
    then (remove msg.correlation_id pending, some (command_of msg.correlation_id msg.result))
    else (pending, none)

module _ ⦃X : Crates⦄ where
  -- The client's task waits for an event, or in `handle_transaction` for one of the two mailboxes.
  pub data ClientTask : Type 0 where
    selecting : ClientTask
    storing : EvaluateTransactionRequest → ClientTask
    evaluating : EvaluateTransactionRequest → ClientTask

  -- An actor that waits keeps what it sends: `sending`, `telling`, `settling`.
  pub record Flow : Type 0 where
    pub client : ClientTask
    pub inbox : List ConsumerMessage
    pub pending : List ℕ
    pub sending : Option AckCommand
    pub commands : List AckCommand
    pub requests : List EngineMessage
    pub engine : EngineActor
    pub telling : Option PersistResults
    pub results : List PersistResults
    pub db : Db
    pub settling : Option AckMessage
    pub replies : List Reply
    pub seen : List ℕ  -- the tags that were delivered, for the proofs

  pub data Turn : Type 0 where
    deliver : X.DateTime → Delivery → Turn
    store_told : Turn
    evaluate_told : Turn
    client_command : Turn
    consumer_takes : Turn
    consumer_sends : Turn
    engine_takes : Turn
    engine_tells : Turn
    sink_takes : (ℕ → Faults) → Turn
    sink_tells : Turn
    refresh : List Rule → Turn

  abbrev pub received : Result TransactionRequest String → ℕ → Flow → Flow
  received (err e) tag s = record s {
    replies = s.replies ++ (basic_nack tag ∷ []);
    seen = tag ∷ s.seen;
  }
  received (ok tx) tag s = record s {
    client = storing (record { tx = tx; correlation_id = tag });
    seen = tag ∷ s.seen;
  }

  abbrev pub taken : ConsumerMessage → List ConsumerMessage → Flow → Flow
  taken (store msg) rest s = record s {
    inbox = rest;
    pending = insert msg.correlation_id s.pending;
  }
  taken (settle msg) rest s =
      let (pending, sending) = begin_settle s.pending msg in
      record s { inbox = rest; pending = pending; sending = sending }

  abbrev pub worked : EngineMessage → List EngineMessage → Flow → Flow
  worked (evaluate msg) rest s =
      let (engine, result) = evaluate_transaction s.engine msg in
      record s { requests = rest; engine = engine; telling = some result }
  worked (update msg) rest s = record s { requests = rest; engine = update_rules s.engine msg }

  abbrev pub persisted : Option (Db × AckMessage) → List PersistResults → Flow → Option Flow
  persisted none rest s = none
  persisted (some (db, msg)) rest s =
      some (record s { results = rest; db = db; settling = some msg })

  module _ (capacity : ℕ) where
    -- The cases of a turn by what its task does at the time; `none` where it has to wait.
    abbrev pub client_turn : ClientTask → Turn → Flow → Option Flow
    client_turn selecting (deliver now d) s =
        some (received (parse_delivery now d) d.delivery_tag s)
    client_turn selecting client_command s = elim s.commands [
      | [] ↦ none
      | cmd ∷ rest ↦ some (record s { commands = rest; replies = s.replies ++ (perform cmd ∷ []) })
    ]
    client_turn (storing msg) store_told s =
        if ltb (length s.inbox) capacity
        then some (record s {
          client = evaluating msg;
          inbox = s.inbox ++ (store (record { correlation_id = msg.correlation_id }) ∷ []);
        })
        else none
    client_turn (evaluating msg) evaluate_told s =
        if ltb (length s.requests) capacity
        then some (record s { client = selecting; requests = s.requests ++ (evaluate msg ∷ []) })
        else none
    client_turn _ _ s = none

    abbrev pub take_message : Option AckCommand → List ConsumerMessage → Flow → Option Flow
    take_message none (msg ∷ rest) s = some (taken msg rest s)
    take_message _ _ s = none

    abbrev pub send_command : Option AckCommand → Flow → Option Flow
    send_command none s = none
    send_command (some cmd) s =
        if ltb (length s.commands) commands_capacity
        then some (record s { sending = none; commands = s.commands ++ (cmd ∷ []) })
        else none

    abbrev pub take_request : Option PersistResults → List EngineMessage → Flow → Option Flow
    take_request none (msg ∷ rest) s = some (worked msg rest s)
    take_request _ _ s = none

    abbrev pub tell_result : Option PersistResults → Flow → Option Flow
    tell_result none s = none
    tell_result (some msg) s =
        if ltb (length s.results) capacity
        then some (record s { telling = none; results = s.results ++ (msg ∷ []) })
        else none

    abbrev pub take_result :
        (ℕ → Faults) → Option AckMessage → List PersistResults → Flow → Option Flow
    take_result faults none (msg ∷ rest) s = persisted (persist_results faults msg s.db) rest s
    take_result faults _ _ s = none

    abbrev pub tell_settlement : Option AckMessage → Flow → Option Flow
    tell_settlement none s = none
    tell_settlement (some msg) s =
        if ltb (length s.inbox) capacity
        then some (record s { settling = none; inbox = s.inbox ++ (settle msg ∷ []) })
        else none

    unfoldable pub move : Turn → Flow → Option Flow
    unfolding insert remove evaluate_transaction update_rules
    move (deliver now d) s = client_turn s.client (deliver now d) s
    move store_told s = client_turn s.client store_told s
    move evaluate_told s = client_turn s.client evaluate_told s
    move client_command s = client_turn s.client client_command s
    move consumer_takes s = take_message s.sending s.inbox s
    move consumer_sends s = send_command s.sending s
    move engine_takes s = take_request s.telling s.requests s
    move engine_tells s = tell_result s.telling s
    move (sink_takes faults) s = take_result faults s.settling s.results s
    move sink_tells s = tell_settlement s.settling s
    move (refresh rules) s =
        if ltb (length s.requests) capacity
        then some (record s { requests = s.requests ++ (update (record { rules = rules }) ∷ []) })
        else none

    -- The states that turns lead to.
    pub data Trail (s : Flow) : Flow → Type 0 where
      here : Trail s s
      next : {t u : Flow} → Trail s t → (turn : Turn) → move turn t ≡ some u → Trail s u
