-- ===== src/App/Backpressure/Origin.antt =====
-- How the tables change in a history of bounded mailboxes.
use mathlib.Core.List.{Memᴰ}
use mathlib.Core.List.Memᴰ.{head}
use fraud_guard.Base.{
  ℕ, String, List, [], ◌∷◌, Option, none, some, Result, ok, err, ◌≡◌, refl, sym, subst, ◌⊎◌, inl,
  inr, All, All-Memᴰ, ltb, length,
}
use fraud_guard.Domain.Crates.{Crates, IsLawful}
use fraud_guard.Domain.Transaction.{TransactionRequest}
use fraud_guard.Storage.Db.{Db}
use fraud_guard.Storage.Sink.{Faults}
use fraud_guard.Storage.Sink.Attempt.{AllOrNothing}
use fraud_guard.Api.Delivery.{Delivery, parse_delivery}
use fraud_guard.Api.Consumer.{AckCommand}
use fraud_guard.App.Messages.{AckMessage, PersistResults}
use fraud_guard.App.Sink.Answer.{persist_results_total}
use fraud_guard.App.Pipeline.{ConsumerMessage, store, settle, EngineMessage, evaluate, update}
use fraud_guard.App.Pipeline.Origin.{Stems, AllOrNothing-Stems}
use fraud_guard.App.Backpressure.{
  commands_capacity, ClientTask, selecting, storing, evaluating, Flow, Turn, deliver, store_told,
  evaluate_told, client_command, consumer_takes, consumer_sends, engine_takes, engine_tells,
  sink_takes, sink_tells, refresh, client_turn, take_message, send_command, take_request,
  tell_result, take_result, tell_settlement, received, move,
}
use fraud_guard.App.Backpressure.Sound.{Holds, Holds-if, Holds-imp, Sound}

module _ ⦃X : Crates⦄ where
  -- The tables stay, or all or nothing of a result that waited for the sink is stored.
  abbrev Changes : Flow → Flow → Type 0
  Changes s u =
      (u.db ≡ s.db)
      ⊎ ((msg : PersistResults) × Memᴰ msg s.results × AllOrNothing msg.tx msg.decision s.db u.db)

  received-Changes :
      (parsed : Result TransactionRequest String) (tag : ℕ) (s : Flow)
      → Changes s (received parsed tag s)
  received-Changes (ok tx) tag s = inl refl
  received-Changes (err e) tag s = inl refl

  module _ (capacity : ℕ) where
    deliver-Changes :
        (c : ClientTask) (now : X.DateTime) (d : Delivery) (s : Flow)
        → Holds (Changes s) (client_turn capacity c (deliver now d) s)
    deliver-Changes selecting now d s = received-Changes (parse_delivery now d) d.delivery_tag s
    deliver-Changes (storing msg) now d s = tt
    deliver-Changes (evaluating msg) now d s = tt

    store_told-Changes :
        (c : ClientTask) (s : Flow) → Holds (Changes s) (client_turn capacity c store_told s)
    store_told-Changes selecting s = tt
    store_told-Changes (storing msg) s =
        Holds-if (Changes s) (ltb (length s.inbox) capacity) _ (inl refl)
    store_told-Changes (evaluating msg) s = tt

    evaluate_told-Changes :
        (c : ClientTask) (s : Flow) → Holds (Changes s) (client_turn capacity c evaluate_told s)
    evaluate_told-Changes selecting s = tt
    evaluate_told-Changes (storing msg) s = tt
    evaluate_told-Changes (evaluating msg) s =
        Holds-if (Changes s) (ltb (length s.requests) capacity) _ (inl refl)

    client_command-Changes :
        (c : ClientTask) (commands : List AckCommand) (s : Flow)
        → s.commands ≡ commands
        → Holds (Changes s) (client_turn capacity c client_command s)
    client_command-Changes selecting [] s e = rw e tt
    client_command-Changes selecting (cmd ∷ rest) s e = rw e (inl refl)
    client_command-Changes (storing msg) commands s e = tt
    client_command-Changes (evaluating msg) commands s e = tt

    take_message-Changes :
        (sending : Option AckCommand) (inbox : List ConsumerMessage) (s : Flow)
        → Holds (Changes s) (take_message capacity sending inbox s)
    take_message-Changes none [] s = tt
    take_message-Changes none (store msg ∷ rest) s = inl refl
    take_message-Changes none (settle msg ∷ rest) s = inl refl
    take_message-Changes (some cmd) inbox s = tt

    send_command-Changes :
        (sending : Option AckCommand) (s : Flow)
        → Holds (Changes s) (send_command capacity sending s)
    send_command-Changes none s = tt
    send_command-Changes (some cmd) s =
        Holds-if (Changes s) (ltb (length s.commands) commands_capacity) _ (inl refl)

    take_request-Changes :
        (telling : Option PersistResults) (requests : List EngineMessage) (s : Flow)
        → Holds (Changes s) (take_request capacity telling requests s)
    take_request-Changes none [] s = tt
    take_request-Changes none (evaluate msg ∷ rest) s = inl refl
    take_request-Changes none (update msg ∷ rest) s = inl refl
    take_request-Changes (some msg) requests s = tt

    tell_result-Changes :
        (telling : Option PersistResults) (s : Flow)
        → Holds (Changes s) (tell_result capacity telling s)
    tell_result-Changes none s = tt
    tell_result-Changes (some msg) s =
        Holds-if (Changes s) (ltb (length s.results) capacity) _ (inl refl)

    take_result-Changes :
        IsLawful X
        → (faults : ℕ → Faults) (settling : Option AckMessage) (results : List PersistResults)
          (s : Flow)
        → s.results ≡ results
        → Holds (Changes s) (take_result capacity faults settling results s)
    take_result-Changes L faults none [] s e = tt
    take_result-Changes L faults none (msg ∷ rest) s e =
        let (db', reply, done, same, stored, atomic) = persist_results_total L faults msg s.db in
        rw done (inr (msg, subst (Memᴰ msg) (sym e) (head refl), atomic))
    take_result-Changes L faults (some reply) results s e = tt

    tell_settlement-Changes :
        (settling : Option AckMessage) (s : Flow)
        → Holds (Changes s) (tell_settlement capacity settling s)
    tell_settlement-Changes none s = tt
    tell_settlement-Changes (some msg) s =
        Holds-if (Changes s) (ltb (length s.inbox) capacity) _ (inl refl)

    move-Changes : IsLawful X → (turn : Turn) (s : Flow) → Holds (Changes s) (move capacity turn s)
    unfolding move
    move-Changes L (deliver now d) s = deliver-Changes s.client now d s
    move-Changes L store_told s = store_told-Changes s.client s
    move-Changes L evaluate_told s = evaluate_told-Changes s.client s
    move-Changes L client_command s = client_command-Changes s.client s.commands s refl
    move-Changes L consumer_takes s = take_message-Changes s.sending s.inbox s
    move-Changes L consumer_sends s = send_command-Changes s.sending s
    move-Changes L engine_takes s = take_request-Changes s.telling s.requests s
    move-Changes L engine_tells s = tell_result-Changes s.telling s
    move-Changes L (sink_takes faults) s = take_result-Changes L faults s.settling s.results s refl
    move-Changes L sink_tells s = tell_settlement-Changes s.settling s
    move-Changes L (refresh rules) s =
        Holds-if (Changes s) (ltb (length s.requests) capacity) _ (inl refl)

    pub move-Stems :
        (Came : ℕ → TransactionRequest → Type 0) (before : Db)
        → IsLawful X
        → (turn : Turn) (s : Flow) → Sound Came s
        → All (Stems Came before) s.db.transactions
        → Holds (λ u. All (Stems Came before) u.db.transactions) (move capacity turn s)
    move-Stems Came before L turn s v stems =
        Holds-imp (move capacity turn s)
          (λ u changes. elim changes [
            | inl same ↦ subst (λ db. All (Stems Came before) db.transactions) (sym same) stems
            | inr (msg, m, atomic) ↦
                AllOrNothing-Stems Came before msg.correlation_id msg.tx msg.decision s.db u.db
                  (All-Memᴰ _ s.results msg m v.results) atomic stems
          ])
          (move-Changes L turn s)
