-- ===== src/App/Backpressure/Settle.antt =====
-- The handler of `AckMessage` in two steps, before and after its await.
use fraud_guard.Base.{List, [], ◌∷◌, ◌++◌, Option, none, some, ◌≡◌, arith, Result-cases}
use fraud_guard.Api.Consumer.{AmqpConsumer, AckCommand, send_ack, send_nack}
use fraud_guard.App.Messages.{AckMessage}
use fraud_guard.App.Consumer.{ConsumerActor, ack_message}
use fraud_guard.App.Backpressure.{begin_settle}

abbrev pub sent : List AckCommand → Option AckCommand → List AckCommand
sent commands none = commands
sent commands (some cmd) = commands ++ (cmd ∷ [])

-- With a client, the handler of `AckMessage` that does not wait does what the two steps do together:
-- the pending set of the first, and its command, if it has one, at the end of the channel.
pub ack_message-begin_settle :
    (c : ConsumerActor) (client : AmqpConsumer) (msg : AckMessage)
    → c.amqp_consumer ≡ some client
    → let (pending, sending) = begin_settle c.pending msg in
      ack_message c msg ≡ record c {
        pending = pending;
        amqp_consumer = some (record client { commands = sent client.commands sending });
      }
unfolding ack_message send_ack send_nack
ack_message-begin_settle c client msg e = ground (arith, Result-cases msg.result)
