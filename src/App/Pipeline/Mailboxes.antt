-- ===== src/App/Pipeline/Mailboxes.antt =====
-- Which mailboxes a turn reads and writes.
use fraud_guard.Base.{ℕ, List, [], ◌∷◌, Bool, true, false, Option-cases, ◌≡◌, refl, arith}
use fraud_guard.Domain.Crates.{Crates, IsLawful}
use fraud_guard.Storage.Sink.{Faults}
use fraud_guard.App.Messages.{PersistResults}
use fraud_guard.App.Sink.{persist_results}
use fraud_guard.App.Sink.Answer.{persist_results_total}
use fraud_guard.App.Pipeline.{
  EngineMessage, evaluate, update, Pipeline, process, persist, tell_sink, tell_consumer,
}

-- What is left of a mailbox after its first message.
abbrev pub rest_of {ℓ} : {A : Type ℓ} → List A → List A
rest_of [] = []
rest_of (x ∷ xs) = xs

module _ ⦃X : Crates⦄ where
  process_queue :
      (sink_runs : Bool) (requests : List EngineMessage) (p : Pipeline)
      → p.requests ≡ requests
      → (process sink_runs requests p).requests ≡ rest_of requests
  unfolding process tell_sink
  process_queue sink_runs [] p e = e
  process_queue sink_runs (update msg ∷ rest) p e = refl
  process_queue true (evaluate msg ∷ rest) p e = refl
  process_queue false (evaluate msg ∷ rest) p e = refl

  pub process-requests :
      (sink_runs : Bool) (p : Pipeline)
      → (process sink_runs p.requests p).requests ≡ rest_of p.requests
  process-requests sink_runs p = process_queue sink_runs p.requests p refl

  persist_queue :
      IsLawful X
      → (faults : ℕ → Faults) (consumer_runs : Bool) (results : List PersistResults) (p : Pipeline)
      → p.results ≡ results
      → ((persist faults consumer_runs results p).results ≡ rest_of results)
        × ((persist faults consumer_runs results p).requests ≡ p.requests)
  unfolding persist tell_consumer
  persist_queue L faults consumer_runs [] p e = (e, refl)
  persist_queue L faults true (msg ∷ rest) p e =
      let (db', reply, done, same, stored, atomic) = persist_results_total L faults msg p.db in
      rw (done, persist) (refl, refl)
  persist_queue L faults false (msg ∷ rest) p e =
      let (db', reply, done, same, stored, atomic) = persist_results_total L faults msg p.db in
      rw (done, persist) (refl, refl)

  -- The sink takes its first message, whatever becomes of it.
  pub persist-mailboxes :
      IsLawful X
      → (faults : ℕ → Faults) (consumer_runs : Bool) (p : Pipeline)
      → ((persist faults consumer_runs p.results p).results ≡ rest_of p.results)
        × ((persist faults consumer_runs p.results p).requests ≡ p.requests)
  persist-mailboxes L faults consumer_runs p = persist_queue L faults consumer_runs p.results p refl

  process_replies :
      (sink_runs : Bool) (requests : List EngineMessage) (p : Pipeline)
      → (process sink_runs requests p).replies ≡ p.replies
  unfolding process tell_sink
  process_replies sink_runs [] p = refl
  process_replies sink_runs (update msg ∷ rest) p = refl
  process_replies true (evaluate msg ∷ rest) p = refl
  process_replies false (evaluate msg ∷ rest) p = refl

  pub process-replies :
      (sink_runs : Bool) (p : Pipeline) → (process sink_runs p.requests p).replies ≡ p.replies
  process-replies sink_runs p = process_replies sink_runs p.requests p

  persist_replies :
      (faults : ℕ → Faults) (consumer_runs : Bool) (results : List PersistResults) (p : Pipeline)
      → (persist faults consumer_runs results p).replies ≡ p.replies
  unfolding persist tell_consumer
  persist_replies faults consumer_runs [] p = refl
  persist_replies faults true (msg ∷ rest) p =
      ground (arith, Option-cases (persist_results faults msg p.db))
  persist_replies faults false (msg ∷ rest) p =
      ground (arith, Option-cases (persist_results faults msg p.db))

  pub persist-replies :
      (faults : ℕ → Faults) (consumer_runs : Bool) (p : Pipeline)
      → (persist faults consumer_runs p.results p).replies ≡ p.replies
  persist-replies faults consumer_runs p = persist_replies faults consumer_runs p.results p
