-- ===== src/App/Backpressure/Wedged.antt =====
-- Two tasks that wait for each other.
use fraud_guard.Base.{ℕ, ◌≤◌, some, length, ◌≡◌, refl, arith, ◌∙◌}
use fraud_guard.Domain.Crates.{Crates}
use fraud_guard.Api.Consumer.{AckCommand}
use fraud_guard.App.Messages.{EvaluateTransactionRequest}
use fraud_guard.App.Backpressure.{
  commands_capacity, storing, Flow, Turn, deliver, store_told, evaluate_told, client_command,
  consumer_takes, consumer_sends, engine_takes, engine_tells, sink_takes, sink_tells, refresh, move,
  Trail, here, next,
}

module _ ⦃X : Crates⦄ (capacity : ℕ) where
  -- The client's task waits for the full mailbox of the consumer, and the consumer for the full
  -- channel to that task.
  pub record Wedged (msg : EvaluateTransactionRequest) (cmd : AckCommand) (s : Flow) : Type 0 where
    pub client : s.client ≡ storing msg
    pub full_inbox : capacity ≤ length s.inbox
    pub sending : s.sending ≡ some cmd
    pub full_commands : commands_capacity ≤ length s.commands

  move-Wedged :
      (msg : EvaluateTransactionRequest) (cmd : AckCommand) (turn : Turn) (s u : Flow)
      → move capacity turn s ≡ some u
      → Wedged msg cmd s
      → Wedged msg cmd u × (u.replies ≡ s.replies) × (u.commands ≡ s.commands)
  unfolding move
  move-Wedged msg cmd (deliver now d) s u e v = absurd (ground arith)
  move-Wedged msg cmd store_told s u e v = absurd (ground arith)
  move-Wedged msg cmd evaluate_told s u e v = absurd (ground arith)
  move-Wedged msg cmd client_command s u e v = absurd (ground arith)
  move-Wedged msg cmd consumer_takes s u e v = absurd (ground arith)
  move-Wedged msg cmd consumer_sends s u e v = absurd (ground arith)
  move-Wedged msg cmd engine_takes s u e v = ground arith
  move-Wedged msg cmd engine_tells s u e v = ground arith
  move-Wedged msg cmd (sink_takes faults) s u e v = ground arith
  move-Wedged msg cmd sink_tells s u e v = absurd (ground arith)
  move-Wedged msg cmd (refresh rules) s u e v = ground arith

  -- Once the client's task waits to hand a delivery to the consumer, whose mailbox is full, while the
  -- consumer waits to send it a command, whose channel is full, they do so for ever: no history of
  -- turns takes a command from the channel or sends an answer to the queue.
  pub Wedged-Trail :
      {s u : Flow} (msg : EvaluateTransactionRequest) (cmd : AckCommand)
      → Wedged msg cmd s
      → Trail capacity s u
      → Wedged msg cmd u × (u.replies ≡ s.replies) × (u.commands ≡ s.commands)
  Wedged-Trail msg cmd v here = (v, refl, refl)
  Wedged-Trail msg cmd v (next {t = t} r turn e) =
      let (w, replies, commands) = Wedged-Trail msg cmd v r in
      let (w', replies', commands') = move-Wedged msg cmd turn t _ e w in
      (w', replies' ∙ replies, commands' ∙ commands)
