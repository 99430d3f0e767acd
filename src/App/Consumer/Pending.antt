-- ===== src/App/Consumer/Pending.antt =====
-- The set of pending deliveries.
use fraud_guard.Base.{ℕ, List, [], ◌∷◌, not, ◌&&◌, ◌||◌, ◌==◌, ◌≡◌, arith}
use fraud_guard.App.Messages.{AckMessage}
use fraud_guard.App.Consumer.{ConsumerActor, ack_message, contains, insert, remove}

pub contains-insert :
    (j id : ℕ) (ids : List ℕ) → contains j (insert id ids) ≡ (id == j || contains j ids)
unfolding insert
contains-insert j id ids = ground arith

pub contains-remove :
    (j id : ℕ) (ids : List ℕ) → contains j (remove id ids) ≡ (not (id == j) && contains j ids)
unfolding remove
contains-remove j id [] = ground arith
contains-remove j id (i ∷ ids) = ground (arith, contains-remove j id ids)

-- After a settlement, a further one for the same delivery changes nothing: the client gets no second
-- command.
pub ack_message_again :
    (c : ConsumerActor) (msg again : AckMessage)
    → again.correlation_id ≡ msg.correlation_id
    → ack_message (ack_message c msg) again ≡ ack_message c msg
unfolding ack_message
ack_message_again c msg again e =
    rw e (ground (arith, contains-remove msg.correlation_id msg.correlation_id c.pending))
