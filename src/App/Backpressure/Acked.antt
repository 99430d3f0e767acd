-- ===== src/App/Backpressure/Acked.antt =====
-- Whole histories with bounded mailboxes: what an ack to the queue means.
use mathlib.Core.List.{Memᴰ}
use fraud_guard.Base.{All, All-Memᴰ, ℕ, [], none, ok, ◌≡◌, ◌⊎◌, inl, inr, refl, subst}
use fraud_guard.Domain.Crates.{Crates, IsLawful}
use fraud_guard.Domain.Transaction.{TransactionRequest}
use fraud_guard.Storage.Db.{Db}
use fraud_guard.Api.Delivery.{Delivery, parse_delivery}
use fraud_guard.Api.EventLoop.{basic_ack}
use fraud_guard.App.Engine.{EngineActor}
use fraud_guard.App.Pipeline.Origin.{Stems, InTables, before-Stems, Recorded-InTables}
use fraud_guard.App.Backpressure.{
  Flow, Turn, deliver, store_told, evaluate_told, client_command, consumer_takes, consumer_sends,
  engine_takes, engine_tells, sink_takes, sink_tells, refresh, Trail, here, next,
}
use fraud_guard.App.Backpressure.Rounds.{ready}
use fraud_guard.App.Backpressure.Sound.{Holds, Sound}
use fraud_guard.App.Backpressure.Turns.{Comes, move-Sound}
use fraud_guard.App.Backpressure.Origin.{move-Stems}

module _ ⦃X : Crates⦄ (capacity : ℕ) where
  -- The turn is one of the history.
  abbrev pub Has : {s u : Flow} → Trail capacity s u → Turn → Type 0
  Has here turn = ⊥
  Has (next r last e) turn = (turn ≡ last) ⊎ Has r turn

  -- The history has a delivery with the tag whose payload is the transaction.
  abbrev pub Came : {s u : Flow} → Trail capacity s u → ℕ → TransactionRequest → Type 0
  Came r tag tx =
      (now : X.DateTime) × (d : Delivery) × Has r (deliver now d)
      × (d.delivery_tag ≡ tag)
      × (parse_delivery now d ≡ ok tx)

  turn-Comes :
      {s u : Flow} (r : Trail capacity s u) (turn : Turn)
      → Has r turn
      → Comes (Came r) capacity turn
  turn-Comes r (deliver now d) h = λ tx e. (now, d, h, refl, e)
  turn-Comes r store_told h = tt
  turn-Comes r evaluate_told h = tt
  turn-Comes r client_command h = tt
  turn-Comes r consumer_takes h = tt
  turn-Comes r consumer_sends h = tt
  turn-Comes r engine_takes h = tt
  turn-Comes r engine_tells h = tt
  turn-Comes r (sink_takes faults) h = tt
  turn-Comes r sink_tells h = tt
  turn-Comes r (refresh rules) h = tt

  Trail-Sound :
      {s u w : Flow} (whole : Trail capacity s w) (r : Trail capacity s u)
      → IsLawful X
      → ((turn : Turn) → Has r turn → Has whole turn)
      → Sound (Came whole) s
      → Sound (Came whole) u
  Trail-Sound whole here L f v = v
  Trail-Sound whole (next {t = t} r turn e) L f v =
      let before = Trail-Sound whole r L (λ other h. f other (inr h)) v in
      subst (Holds (Sound (Came whole))) e (
        move-Sound (Came whole) capacity L turn t (turn-Comes whole turn (f turn (inl refl)))
          before)

  Trail-Stems :
      {s u w : Flow} (whole : Trail capacity s w) (before : Db) (r : Trail capacity s u)
      → IsLawful X
      → ((turn : Turn) → Has r turn → Has whole turn)
      → Sound (Came whole) s
      → All (Stems (Came whole) before) s.db.transactions
      → All (Stems (Came whole) before) u.db.transactions
  Trail-Stems whole before here L f v stems = stems
  Trail-Stems whole before (next {t = t} r turn e) L f v stems =
      let sooner : (other : Turn) → Has r other → Has whole other = λ other h. f other (inr h) in
      subst (Holds (λ u. All (Stems (Came whole) before) u.db.transactions)) e (
        move-Stems capacity (Came whole) before L turn t (Trail-Sound whole r L sooner v)
          (Trail-Stems whole before r L sooner v stems))

  -- With lawful crates, whatever the capacity of the mailboxes is, in every history from the start in
  -- which tasks wait at full mailboxes, and whatever faults the database has, an ack to the queue means
  -- that a delivery with its tag came whose payload parses as a transaction, and that under the
  -- identifier of this transaction the tables have a decision and a transaction, which was there before
  -- the history or says in each column what a transaction that came says.
  pub bounded_acked :
      {s : Flow}
      → IsLawful X
      → (engine : EngineActor) (db : Db)
        (r : Trail capacity (ready capacity [] [] none [] [] engine db [] []) s) (tag : ℕ)
      → Memᴰ (basic_ack tag) s.replies
      → (tx : TransactionRequest) × Came r tag tx × InTables (Came r) db tx s.db
  bounded_acked L engine db r tag m =
      let fresh : Sound (Came r) (ready capacity [] [] none [] [] engine db [] []) = record {
        client = tt;
        inbox = tt;
        sending = tt;
        commands = tt;
        requests = tt;
        telling = tt;
        results = tt;
        settling = tt;
        replies = tt;
      } in
      let v = Trail-Sound r r L (λ turn h. h) fresh in
      let stems = Trail-Stems r db r L (λ turn h. h) fresh (before-Stems (Came r) db) in
      let (tx, came, recorded) = All-Memᴰ _ _ (basic_ack tag) m v.replies in
      (tx, came, Recorded-InTables (Came r) db L tx _ recorded stems)
