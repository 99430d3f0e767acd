-- ===== src/App/Backpressure/Counts.antt =====
-- The turns of the tasks, and the account of a delivery where tasks wait.
use fraud_guard.Base.{
  ℕ, ◌≤◌, List, [], ◌∷◌, Option, none, some, ◌==◌, ◌≡◌, refl, suc, arith, count_if, count_if-append,
  inl, inr, Option-cases, Result-cases, subst, if◌then◌else◌, ltb, length,
}
use fraud_guard.Domain.Crates.{Crates}
use fraud_guard.Storage.Sink.{Faults}
use fraud_guard.Api.Consumer.{AckCommand}
use fraud_guard.Api.Delivery.{Delivery, parse_delivery}
use fraud_guard.App.Messages.{AckMessage, PersistResults}
use fraud_guard.App.Sink.{persist_results}
use fraud_guard.App.Sink.Answer.{persist_results-tag}
use fraud_guard.App.Pipeline.{ConsumerMessage, store, settle, EngineMessage, evaluate, update}
use fraud_guard.App.Pipeline.Tokens.{is_tag}
use fraud_guard.App.Pipeline.Account.{Account-cast}
use fraud_guard.App.Backpressure.{
  commands_capacity, ClientTask, selecting, storing, evaluating, Flow, Turn, deliver, store_told,
  evaluate_told, client_command, consumer_takes, consumer_sends, engine_takes, engine_tells,
  sink_takes, sink_tells, refresh, client_turn, take_message, send_command, take_request,
  tell_result, take_result, tell_settlement, move, persisted, taken,
}
use fraud_guard.App.Backpressure.Sound.{Holds, Holds-if}
use fraud_guard.App.Backpressure.Tally.{
  Tally, TallyOf, received-Tally, taken-Tally, worked-Tally, told_store-Tally,
  told_settlement-Tally, performed-Tally,
}

module _ ⦃X : Crates⦄ (t : ℕ) where
  -- One more, if the turn delivers the tag.
  abbrev pub counted : Turn → ℕ → ℕ
  counted (deliver now d) n = if d.delivery_tag == t then suc n else n
  counted store_told n = n
  counted evaluate_told n = n
  counted client_command n = n
  counted consumer_takes n = n
  counted consumer_sends n = n
  counted engine_takes n = n
  counted engine_tells n = n
  counted (sink_takes faults) n = n
  counted sink_tells n = n
  counted (refresh rules) n = n

  pub counted_mono : (turn : Turn) (n : ℕ) → n ≤ counted turn n
  counted_mono (deliver now d) n = ground arith
  counted_mono store_told n = omega arith
  counted_mono evaluate_told n = omega arith
  counted_mono client_command n = omega arith
  counted_mono consumer_takes n = omega arith
  counted_mono consumer_sends n = omega arith
  counted_mono engine_takes n = omega arith
  counted_mono engine_tells n = omega arith
  counted_mono (sink_takes faults) n = omega arith
  counted_mono sink_tells n = omega arith
  counted_mono (refresh rules) n = omega arith

  abbrev pub sightings : Flow → ℕ
  sightings s = count_if (is_tag t) s.seen

  -- The account is in order, and the tag has been seen once more if the turn delivers it.
  abbrev pub After : ℕ → Flow → Type 0
  After n s = Tally t s × (sightings s ≡ n)

  module _ (capacity : ℕ) where
    deliver-After :
        (c : ClientTask) (now : X.DateTime) (d : Delivery) (s : Flow)
        → s.client ≡ c
        → counted (deliver now d) (sightings s) ≤ 1
        → Tally t s
        → Holds
            (After (counted (deliver now d) (sightings s)))
            (client_turn capacity c (deliver now d) s)
    deliver-After selecting now d s e once v = (
      received-Tally t (parse_delivery now d) d.delivery_tag s e (λ hit. ground arith) v,
      ground (arith, Result-cases (parse_delivery now d)),
    )
    deliver-After (storing msg) now d s e once v = tt
    deliver-After (evaluating msg) now d s e once v = tt

    store_told-After :
        (c : ClientTask) (s : Flow)
        → s.client ≡ c
        → Tally t s
        → Holds (After (sightings s)) (client_turn capacity c store_told s)
    store_told-After selecting s e v = tt
    store_told-After (storing msg) s e v =
        Holds-if (After (sightings s)) (ltb (length s.inbox) capacity) _
          (told_store-Tally t msg s e v, refl)
    store_told-After (evaluating msg) s e v = tt

    evaluate_told-After :
        (c : ClientTask) (s : Flow)
        → s.client ≡ c
        → Tally t s
        → Holds (After (sightings s)) (client_turn capacity c evaluate_told s)
    evaluate_told-After selecting s e v = tt
    evaluate_told-After (storing msg) s e v = tt
    evaluate_told-After (evaluating msg) s e v =
        Holds-if (After (sightings s)) (ltb (length s.requests) capacity) _ (
          Account-cast t s.inbox refl refl (grind (arith, count_if-append, e)) refl refl
              (ground (arith, e)) v,
          refl,
        )

    client_command-After :
        (c : ClientTask) (commands : List AckCommand) (s : Flow)
        → s.commands ≡ commands
        → Tally t s
        → Holds (After (sightings s)) (client_turn capacity c client_command s)
    client_command-After selecting [] s e v = rw e tt
    client_command-After selecting (cmd ∷ rest) s e v =
        let w = performed-Tally t cmd rest s e v in rw e (w, refl)
    client_command-After (storing msg) commands s e v = tt
    client_command-After (evaluating msg) commands s e v = tt

    taken-seen :
        (m : ConsumerMessage) (rest : List ConsumerMessage) (s : Flow)
        → sightings (taken m rest s) ≡ sightings s
    taken-seen (store msg) rest s = refl
    taken-seen (settle msg) rest s = refl

    take_message-After :
        (sending : Option AckCommand) (inbox : List ConsumerMessage) (s : Flow)
        → s.sending ≡ sending
        → s.inbox ≡ inbox
        → Tally t s
        → Holds (After (sightings s)) (take_message capacity sending inbox s)
    take_message-After none [] s f e v = tt
    take_message-After none (m ∷ rest) s f e v =
        (taken-Tally t m rest s f (subst (TallyOf t s) e v), taken-seen m rest s)
    take_message-After (some cmd) inbox s f e v = tt

    send_command-After :
        (sending : Option AckCommand) (s : Flow)
        → s.sending ≡ sending
        → Tally t s
        → Holds (After (sightings s)) (send_command capacity sending s)
    send_command-After none s e v = tt
    send_command-After (some cmd) s e v =
        Holds-if (After (sightings s)) (ltb (length s.commands) commands_capacity) _ (
          Account-cast t s.inbox refl refl refl (grind (arith, count_if-append, e)) refl refl v,
          refl,
        )

    take_request-After :
        (telling : Option PersistResults) (requests : List EngineMessage) (s : Flow)
        → s.telling ≡ telling
        → s.requests ≡ requests
        → Tally t s
        → Holds (After (sightings s)) (take_request capacity telling requests s)
    take_request-After none [] s f e v = tt
    take_request-After none (evaluate msg ∷ rest) s f e v =
        (worked-Tally t (evaluate msg) rest s f e v, refl)
    take_request-After none (update msg ∷ rest) s f e v =
        (worked-Tally t (update msg) rest s f e v, refl)
    take_request-After (some msg) requests s f e v = tt

    tell_result-After :
        (telling : Option PersistResults) (s : Flow)
        → s.telling ≡ telling
        → Tally t s
        → Holds (After (sightings s)) (tell_result capacity telling s)
    tell_result-After none s e v = tt
    tell_result-After (some msg) s e v =
        Holds-if (After (sightings s)) (ltb (length s.results) capacity) _ (
          Account-cast t s.inbox refl refl (grind (arith, count_if-append, e)) refl refl refl v,
          refl,
        )

    persisted-After :
        (faults : ℕ → Faults) (msg : PersistResults) (rest : List PersistResults) (s : Flow)
        → s.settling ≡ none
        → s.results ≡ msg ∷ rest
        → Tally t s
        → Holds (After (sightings s)) (persisted (persist_results faults msg s.db) rest s)
    persisted-After faults msg rest s f e v =
        elim (Option-cases (persist_results faults msg s.db)) [
          | inl stuck ↦ rw stuck tt
          | inr ((db, reply), done) ↦
              let same = persist_results-tag faults msg s.db db reply done in
              rw done (
                Account-cast t s.inbox refl refl (ground (arith, same, e, f)) refl refl refl v,
                refl,
              )
        ]

    take_result-After :
        (faults : ℕ → Faults) (settling : Option AckMessage) (results : List PersistResults)
        (s : Flow)
        → s.settling ≡ settling
        → s.results ≡ results
        → Tally t s
        → Holds (After (sightings s)) (take_result capacity faults settling results s)
    take_result-After faults none [] s f e v = tt
    take_result-After faults none (msg ∷ rest) s f e v = persisted-After faults msg rest s f e v
    take_result-After faults (some reply) results s f e v = tt

    tell_settlement-After :
        (settling : Option AckMessage) (s : Flow)
        → s.settling ≡ settling
        → Tally t s
        → Holds (After (sightings s)) (tell_settlement capacity settling s)
    tell_settlement-After none s e v = tt
    tell_settlement-After (some msg) s e v =
        Holds-if (After (sightings s)) (ltb (length s.inbox) capacity) _
          (told_settlement-Tally t msg s e v, refl)

    pub move-After :
        (turn : Turn) (s : Flow)
        → counted turn (sightings s) ≤ 1
        → Tally t s
        → Holds (After (counted turn (sightings s))) (move capacity turn s)
    unfolding move
    move-After (deliver now d) s once v = deliver-After s.client now d s refl once v
    move-After store_told s once v = store_told-After s.client s refl v
    move-After evaluate_told s once v = evaluate_told-After s.client s refl v
    move-After client_command s once v = client_command-After s.client s.commands s refl v
    move-After consumer_takes s once v = take_message-After s.sending s.inbox s refl refl v
    move-After consumer_sends s once v = send_command-After s.sending s refl v
    move-After engine_takes s once v = take_request-After s.telling s.requests s refl refl v
    move-After engine_tells s once v = tell_result-After s.telling s refl v
    move-After (sink_takes faults) s once v =
        take_result-After faults s.settling s.results s refl refl v
    move-After sink_tells s once v = tell_settlement-After s.settling s refl v
    move-After (refresh rules) s once v =
        Holds-if (After (sightings s)) (ltb (length s.requests) capacity) _
          (Account-cast t s.inbox refl refl (grind (arith, count_if-append)) refl refl refl v, refl)
