-- ===== src/App/Pipeline/Account.antt =====
-- How each kind of turn moves an account.
use fraud_guard.Base.{
  ℕ, ◌+◌, List, [], ◌∷◌, ◌++◌, Bool, true, false, ◌||◌, ◌==◌, ◌≡◌, refl, subst, arith,
  count_if-append,
}
use fraud_guard.App.Messages.{StoreDelivery, AckMessage}
use fraud_guard.App.Pipeline.{ConsumerMessage, store, settle}
use fraud_guard.App.Pipeline.Tokens.{
  Account, Ready, Ready-append, pending_after, pending_after-append, settles,
}

pub Account-cast :
    (t : ℕ) (inbox : List ConsumerMessage)
    → {b b' : Bool} {s s' w w' c c' r r' l l' : ℕ} → b ≡ b'
    → s ≡ s'
    → w ≡ w'
    → c ≡ c'
    → r ≡ r'
    → l ≡ l'
    → Account t inbox b s w c r l
    → Account t inbox b' s' w' c' r' l'
Account-cast t inbox {b} {b'} eb es ew ec er el a = record {
  counted = omega (arith, a.counted);
  once = omega (arith, a.once);
  ready = subst (λ x. Ready t x inbox) eb a.ready;
  waiting = λ h. subst (λ x. pending_after t x inbox ≡ true) eb (a.waiting (omega arith));
}

module _ (t : ℕ) (inbox : List ConsumerMessage) (b : Bool)
    (seen work channel replied lost : ℕ) where
  pub Account-read_store :
      (msg : StoreDelivery)
      → Account t (store msg ∷ inbox) b seen work channel replied lost
      → Account t inbox (msg.correlation_id == t || b) seen work channel replied lost
  Account-read_store msg a = record {
    counted = a.counted;
    once = a.once;
    ready = a.ready;
    waiting = a.waiting;
  }

  pub Account-read_other :
      (msg : AckMessage)
      → (msg.correlation_id == t) ≡ false
      → Account t (settle msg ∷ inbox) b seen work channel replied lost
      → Account t inbox b seen work channel replied lost
  Account-read_other msg e a = record {
    counted = ground (arith, a.counted);
    once = a.once;
    ready = rw e at (a.ready.1);
    waiting = rw e at a.waiting;
  }

  -- The settlement finds its delivery pending, and becomes a command.
  pub Account-read_settle :
      (msg : AckMessage)
      → (msg.correlation_id == t) ≡ true
      → Account t (settle msg ∷ inbox) b seen work channel replied lost
      → (b ≡ true) × Account t inbox false seen work (channel + 1) replied lost
  Account-read_settle msg e a = (
    a.ready.0 e,
    record {
      counted = ground (arith, a.counted);
      once = a.once;
      ready = rw e at (a.ready.1);
      waiting = rw e at a.waiting;
    },
  )

  -- The sink's answer goes into the inbox.
  pub Account-settle :
      (msg : AckMessage)
      → (msg.correlation_id == t) ≡ true
      → Account t inbox b seen (work + 1) channel replied lost
      → Account t (inbox ++ (settle msg ∷ [])) b seen work channel replied lost
  Account-settle msg e a = record {
    counted = ground (arith, a.counted, count_if-append (settles t) inbox (settle msg ∷ []));
    once = a.once;
    ready = Ready-append t inbox (settle msg ∷ []) b a.ready ((λ _. a.waiting (omega arith)), tt);
    waiting = λ h. absurd (omega (arith, a.counted, a.once));
  }

  pub Account-settle_other :
      (msg : AckMessage)
      → (msg.correlation_id == t) ≡ false
      → Account t inbox b seen work channel replied lost
      → Account t (inbox ++ (settle msg ∷ [])) b seen work channel replied lost
  Account-settle_other msg e a = record {
    counted = ground (arith, a.counted, count_if-append (settles t) inbox (settle msg ∷ []));
    once = a.once;
    ready = Ready-append t inbox (settle msg ∷ []) b a.ready ((λ h. absurd (ground arith)), tt);
    waiting = λ h. rw pending_after-append (rw (e, a.waiting h) refl);
  }

  -- A new delivery enters, and its store message goes into the inbox.
  pub Account-store :
      (msg : StoreDelivery)
      → Account t inbox b seen work channel replied lost
      → Account t (inbox ++ (store msg ∷ [])) b seen work channel replied lost
  Account-store msg a = record {
    counted = ground (arith, a.counted, count_if-append (settles t) inbox (store msg ∷ []));
    once = a.once;
    ready = Ready-append t inbox (store msg ∷ []) b a.ready tt;
    waiting = λ h. rw pending_after-append (rw (a.waiting h) (ground arith));
  }

  -- A delivery with a new tag is handed over: a request stands for it.
  pub Account-deliver :
      (msg : StoreDelivery)
      → (msg.correlation_id == t) ≡ true
      → seen ≡ 0
      → Account t inbox b seen work channel replied lost
      → Account t (inbox ++ (store msg ∷ [])) b (seen + 1) (work + 1) channel replied lost
  Account-deliver msg e z a = record {
    counted = ground (arith, a.counted, count_if-append (settles t) inbox (store msg ∷ []));
    once = omega arith;
    ready = Ready-append t inbox (store msg ∷ []) b a.ready tt;
    waiting = λ h. rw pending_after-append (rw e refl);
  }

  -- A delivery with a new tag is refused with a nack.
  pub Account-refuse :
      seen ≡ 0
      → Account t inbox b seen work channel replied lost
      → Account t inbox b (seen + 1) work channel (replied + 1) lost
  Account-refuse z a = record {
    counted = omega (arith, a.counted);
    once = omega arith;
    ready = a.ready;
    waiting = a.waiting;
  }

  -- A command becomes an answer.
  pub Account-reply :
      Account t inbox b seen work (channel + 1) replied lost
      → Account t inbox b seen work channel (replied + 1) lost
  Account-reply a = record {
    counted = omega (arith, a.counted);
    once = a.once;
    ready = a.ready;
    waiting = a.waiting;
  }

  -- A message in work is lost to a receiver that has stopped.
  pub Account-lose :
      Account t inbox b seen (work + 1) channel replied lost
      → Account t inbox b seen work channel replied (lost + 1)
  Account-lose a = record {
    counted = omega (arith, a.counted);
    once = a.once;
    ready = a.ready;
    waiting = λ h. a.waiting (omega arith);
  }

  -- A delivery with a new tag comes, and its messages are not sent yet.
  pub Account-enter :
      seen ≡ 0
      → Account t inbox b seen work channel replied lost
      → Account t inbox b (seen + 1) work channel replied (lost + 1)
  Account-enter z a = record {
    counted = omega (arith, a.counted);
    once = omega arith;
    ready = a.ready;
    waiting = a.waiting;
  }

  -- Its store message goes into the inbox, and another message stands for it.
  pub Account-hand_over :
      (msg : StoreDelivery)
      → (msg.correlation_id == t) ≡ true
      → Account t inbox b seen work channel replied (lost + 1)
      → Account t (inbox ++ (store msg ∷ [])) b seen (work + 1) channel replied lost
  Account-hand_over msg e a = record {
    counted = ground (arith, a.counted, count_if-append (settles t) inbox (store msg ∷ []));
    once = a.once;
    ready = Ready-append t inbox (store msg ∷ []) b a.ready tt;
    waiting = λ h. rw pending_after-append (rw e refl);
  }
