-- ===== src/App/Consumer/Machine.antt =====
-- The handlers of the consumer against a machine whose state is a set of tags and the client.
use mathlib.Core.Quot
use fraud_guard.Base.{
  arith, ℕ, List, [], ◌∷◌, Option, ◌≡◌, refl, ◌∙◌, ap, if◌then◌else◌, Bool-cases, inl, inr,
}
use fraud_guard.Api.Consumer.{AmqpConsumer}
use fraud_guard.App.Consumer.{contains, ConsumerActor, store_delivery, ack_message, answer}
use fraud_guard.App.Consumer.PendingSet.{member-add, member-take, PendingSet, member, add, take}
use fraud_guard.App.Pipeline.{ConsumerMessage, store, settle}
use fraud_guard.App.Pipeline.Tokens.{pending_after}

-- The set that the list of tags stands for, and the client.
abbrev pub view : ConsumerActor → PendingSet × Option AmqpConsumer
view c = (Quot.mk c.pending, c.amqp_consumer)

-- The handler for the message.
abbrev pub handle : ConsumerMessage → ConsumerActor → ConsumerActor
handle (store msg) c = store_delivery c msg
handle (settle msg) c = ack_message c msg

unfoldable pub handle_all : List ConsumerMessage → ConsumerActor → ConsumerActor
unfolding store_delivery ack_message
handle_all [] c = c
handle_all (msg ∷ msgs) c = handle_all msgs (handle msg c)

-- A delivery enters the set. A settlement takes its tag out and gives the client a command, if the tag
-- was there; otherwise nothing happens.
abbrev pub on_set :
    ConsumerMessage → PendingSet × Option AmqpConsumer → PendingSet × Option AmqpConsumer
on_set (store msg) (s, client) = (add msg.correlation_id s, client)
on_set (settle msg) (s, client) =
    if member msg.correlation_id s
    then (take msg.correlation_id s, answer client msg.correlation_id msg.result)
    else (s, client)

unfoldable pub all_on_set :
    List ConsumerMessage → PendingSet × Option AmqpConsumer → PendingSet × Option AmqpConsumer
unfolding member add take
all_on_set [] v = v
all_on_set (msg ∷ msgs) v = all_on_set msgs (on_set msg v)

handle-view :
    (msg : ConsumerMessage) (c : ConsumerActor) → view (handle msg c) ≡ on_set msg (view c)
unfolding store_delivery ack_message add take member
handle-view (store msg) c = refl
handle-view (settle msg) c = elim (Bool-cases (contains msg.correlation_id c.pending)) [
  | inl held ↦ rw (held, ack_message) refl
  | inr free ↦ rw (free, ack_message) refl
]

view_all :
    (msgs : List ConsumerMessage) (c : ConsumerActor)
    → view (handle_all msgs c) ≡ all_on_set msgs (view c)
unfolding handle_all all_on_set
view_all [] c = refl
view_all (msg ∷ msgs) c = view_all msgs (handle msg c) ∙ ap (all_on_set msgs) (handle-view msg c)

-- One message, and whether a tag is in the set.
member-on_set :
    (j : ℕ) (msg : ConsumerMessage) (v : PendingSet × Option AmqpConsumer)
    → member j (on_set msg v).0 ≡ pending_after j (member j v.0) (msg ∷ [])
member-on_set j (store msg) (s, client) = member-add j msg.correlation_id s
member-on_set j (settle msg) (s, client) = elim (Bool-cases (member msg.correlation_id s)) [
  | inl held ↦ rw held (member-take j msg.correlation_id s)
  | inr free ↦ rw free (grind (arith, free))
]

member-all_on_set :
    (j : ℕ) (msgs : List ConsumerMessage) (v : PendingSet × Option AmqpConsumer)
    → member j (all_on_set msgs v).0 ≡ pending_after j (member j v.0) msgs
unfolding all_on_set
member-all_on_set j [] v = refl
member-all_on_set j (store msg ∷ msgs) v =
    member-all_on_set j msgs (on_set (store msg) v)
    ∙ ap (λ b. pending_after j b msgs) (member-on_set j (store msg) v)
member-all_on_set j (settle msg ∷ msgs) v =
    member-all_on_set j msgs (on_set (settle msg) v)
    ∙ ap (λ b. pending_after j b msgs) (member-on_set j (settle msg) v)

-- Whatever messages the consumer handles, the set of its pending tags and the commands of its client
-- are those of the machine on sets, so that they do not depend on the order or the way in which the
-- tags are kept; and a tag is pending at the end exactly if it was stored and not settled since, or
-- was pending before and not settled.
pub handle_all-view :
    (msgs : List ConsumerMessage) (c : ConsumerActor)
    → (view (handle_all msgs c) ≡ all_on_set msgs (view c))
      × ((j : ℕ)
          → member j (view (handle_all msgs c)).0 ≡ pending_after j (member j (view c).0) msgs)
handle_all-view msgs c = (
  view_all msgs c,
  λ j. ap (λ v. member j v.0) (view_all msgs c) ∙ member-all_on_set j msgs (view c),
)
