-- ===== src/App/Pipeline/Moves.antt =====
-- The turns of the consumer, and the account of a delivery.
use fraud_guard.Base.{
  ℕ, ◌+◌, List, [], ◌∷◌, true, false, Option, none, some, ok, err, Result, ◌==◌, ◌≡◌, ◌≢◌, refl,
  arith, count_if, count_if-append, subst, sym, ◌∙◌, inl, inr, Bool-cases, if◌then◌else◌,
}
use fraud_guard.Domain.Crates.{Crates}
use fraud_guard.Api.Consumer.{send_ack, send_nack}
use fraud_guard.App.Pipeline.Account.{
  Account-cast, Account-read_store, Account-read_other, Account-read_settle,
}
use fraud_guard.Api.Consumer.{AmqpConsumer, ack, nack}
use fraud_guard.Domain.Error.{DomainError}
use fraud_guard.App.Consumer
use fraud_guard.App.Messages.{AckMessage}
use fraud_guard.App.Consumer.{
  ConsumerActor, contains, insert, remove, store_delivery, ack_message, Links, Handled,
  handle_transaction,
}
use fraud_guard.App.Consumer.Pending.{contains-insert, contains-remove}
use fraud_guard.App.Pipeline.{ConsumerMessage, store, settle, Pipeline, consume}
use fraud_guard.App.Pipeline.Tokens.{commands, is_tag, in_channel, in_work, answered, Account, Inv}

module _ ⦃X : Crates⦄ (t : ℕ) where
  -- The account of `p` with another inbox.
  abbrev At : Pipeline → List ConsumerMessage → Type 0
  At p inbox =
      Account t inbox (contains t p.consumer.pending) (count_if (is_tag t) p.seen) (in_work t p)
        (in_channel t p.consumer.amqp_consumer) (answered t p) (count_if (is_tag t) p.lost)

  -- A command for `tag` in the channel of a client.
  in_channel-answer :
      (client : Option AmqpConsumer) (tag : ℕ) (result : Result (Unit {0}) DomainError)
      → client ≢ none
      → (Consumer.answer client tag result ≢ none)
        × (in_channel t (Consumer.answer client tag result)
            ≡ (if tag == t then in_channel t client + 1 else in_channel t client))
  unfolding send_ack send_nack
  in_channel-answer none tag result h = absurd (h refl)
  in_channel-answer (some client) tag (ok _) h =
      (ground arith, ground (arith, count_if-append (commands t) client.commands (ack tag ∷ [])))
  in_channel-answer (some client) tag (err e) h =
      (ground arith, ground (arith, count_if-append (commands t) client.commands (nack tag ∷ [])))

  ack_message_hit :
      (c : ConsumerActor) (msg : AckMessage)
      → (msg.correlation_id == t) ≡ true
      → contains t c.pending ≡ true
      → (contains t (ack_message c msg).pending ≡ false)
        × ((ack_message c msg).amqp_consumer
            ≡ Consumer.answer c.amqp_consumer msg.correlation_id msg.result)
  unfolding ack_message
  ack_message_hit c msg e b = ground (arith, contains-remove t msg.correlation_id c.pending)

  ack_message_other :
      (c : ConsumerActor) (msg : AckMessage)
      → (msg.correlation_id == t) ≡ false
      → c.amqp_consumer ≢ none
      → (contains t (ack_message c msg).pending ≡ contains t c.pending)
        × (in_channel t (ack_message c msg).amqp_consumer ≡ in_channel t c.amqp_consumer)
        × ((ack_message c msg).amqp_consumer ≢ none)
  unfolding ack_message
  ack_message_other c msg e h =
      let (n, k) = in_channel-answer c.amqp_consumer msg.correlation_id msg.result h in
      elim (Bool-cases (contains msg.correlation_id c.pending)) [
        | inl held ↦
            rw (held, ack_message)
              (rw (contains-remove t msg.correlation_id c.pending, e) (refl, k ∙ rw e, n))
        | inr free ↦ rw (free, ack_message) (refl, refl, h)
      ]

  consume-settle :
      (msg : AckMessage) (rest : List ConsumerMessage) (c : ConsumerActor) (s w r l : ℕ)
      → c.amqp_consumer ≢ none
      → Account t (settle msg ∷ rest) (contains t c.pending) s w (in_channel t c.amqp_consumer) r l
      → let c' = ack_message c msg in
        (c'.amqp_consumer ≢ none)
        × Account t rest (contains t c'.pending) s w (in_channel t c'.amqp_consumer) r l
  consume-settle msg rest c s w r l h a = elim (Bool-cases (msg.correlation_id == t)) [
    | inl e ↦
        let (b, a') = Account-read_settle t rest _ _ _ _ _ _ msg e a in
        let (n, k) = in_channel-answer c.amqp_consumer msg.correlation_id msg.result h in
        let (f, g) = ack_message_hit c msg e b in
        (rw g n, Account-cast t rest (sym f) refl refl (rw g (sym (k ∙ rw e))) refl refl a')
    | inr e ↦
        let (f, g, n) = ack_message_other c msg e h in
        (
          n,
          Account-cast t rest (sym f) refl refl (sym g) refl refl
              (Account-read_other t rest _ _ _ _ _ _ msg e a),
        )
  ]

  pub consume-Inv :
      (inbox : List ConsumerMessage) (p : Pipeline)
      → p.inbox ≡ inbox
      → Inv t p
      → Inv t (consume inbox p)
  unfolding consume store_delivery
  consume-Inv [] p e v = v
  consume-Inv (store msg ∷ rest) p e v =
      let a = subst (At p) e v.account in
      record {
        client = v.client;
        account = rw contains-insert (Account-read_store t rest _ _ _ _ _ _ msg a);
      }
  consume-Inv (settle msg ∷ rest) p e v =
      let (n, a) = consume-settle msg rest p.consumer _ _ _ _ v.client (subst (At p) e v.account) in
      record { client = n; account = a }
