-- ===== src/App/Pipeline/Receive.antt =====
-- A delivery enters the pipeline.
use fraud_guard.Base.{
  ℕ, String, [], ◌∷◌, ◌++◌, Bool, true, false, Result, ok, err, ◌==◌, ◌≡◌, refl, arith, count_if,
  count_if-append, inl, inr, Bool-cases,
}
use fraud_guard.Domain.Crates.{Crates}
use fraud_guard.Domain.Transaction.{TransactionRequest}
use fraud_guard.Api.EventLoop.{basic_nack}
use fraud_guard.App.Messages.{StoreDelivery, EvaluateTransactionRequest}
use fraud_guard.App.Consumer.{Links, handle_transaction}
use fraud_guard.App.Pipeline.{evaluate, Pipeline, hand_over, receive}
use fraud_guard.App.Pipeline.Tokens.{answers, is_tag, requests_it, Inv}
use fraud_guard.App.Pipeline.Account.{Account-cast, Account-store, Account-deliver, Account-refuse}

module _ ⦃X : Crates⦄ (t : ℕ) where
  -- The tag was not seen before, where it is `t`.
  abbrev pub NewTag : ℕ → Pipeline → Type 0
  NewTag tag p = (tag == t) ≡ true → count_if (is_tag t) p.seen ≡ 0

  abbrev pub seen : ℕ → Pipeline → Pipeline
  seen tag p = record p { seen = tag ∷ p.seen }

  -- The delivery is answered with a nack at once.
  refuse-Inv :
      (tag : ℕ) (p : Pipeline)
      → NewTag tag p
      → Inv t p
      → Inv t (record p { seen = tag ∷ p.seen; replies = p.replies ++ (basic_nack tag ∷ []) })
  refuse-Inv tag p new v =
      let more = count_if-append (answers t) p.replies (basic_nack tag ∷ []) in
      record {
        client = v.client;
        account = elim (Bool-cases (tag == t)) [
          | inl hit ↦
              Account-cast t p.inbox refl (ground arith) refl refl (ground (arith, more)) refl
                (Account-refuse t p.inbox _ _ _ _ _ _ (new hit) v.account)
          | inr miss ↦
              Account-cast t p.inbox refl (ground arith) refl refl (ground (arith, more)) refl
                v.account
        ];
      }

  -- Both actors are told.
  accept-Inv :
      (msg : EvaluateTransactionRequest) (p : Pipeline)
      → NewTag msg.correlation_id p
      → Inv t p
      → Inv t (
          hand_over
            (record { stored = true; evaluated = true; result = ok tt })
            msg
            (seen msg.correlation_id p))
  unfolding hand_over
  accept-Inv msg p new v =
      let more = count_if-append (requests_it t) p.requests (evaluate msg ∷ []) in
      let entry : StoreDelivery = record { correlation_id = msg.correlation_id } in
      record {
        client = v.client;
        account = elim (Bool-cases (msg.correlation_id == t)) [
          | inl hit ↦
              Account-cast t _ refl (ground arith) (ground (arith, more)) refl refl refl
                (Account-deliver t p.inbox _ _ _ _ _ _ entry hit (new hit) v.account)
          | inr miss ↦
              Account-cast t _ refl (ground arith) (ground (arith, more)) refl refl refl
                (Account-store t p.inbox _ _ _ _ _ _ entry v.account)
        ];
      }

  -- Only the consumer is told: the delivery is refused, and stays pending.
  leak-Inv :
      (reason : String) (msg : EvaluateTransactionRequest) (p : Pipeline)
      → NewTag msg.correlation_id p
      → Inv t p
      → Inv t (
          hand_over
            (record { stored = true; evaluated = false; result = err reason })
            msg
            (seen msg.correlation_id p))
  unfolding hand_over
  leak-Inv reason msg p new v =
      let tag = msg.correlation_id in
      let more = count_if-append (answers t) p.replies (basic_nack tag ∷ []) in
      let entry : StoreDelivery = record { correlation_id = tag } in
      let a = Account-store t p.inbox _ _ _ _ _ _ entry v.account in
      record {
        client = v.client;
        account = elim (Bool-cases (tag == t)) [
          | inl hit ↦
              Account-cast t _ refl (ground arith) refl refl (ground (arith, more)) refl
                (Account-refuse t _ _ _ _ _ _ _ (new hit) a)
          | inr miss ↦ Account-cast t _ refl (ground arith) refl refl (ground (arith, more)) refl a
        ];
      }

  hand_over-Inv :
      (upgrade : Bool) (told sent : Result (Unit {0}) String) (tx : TransactionRequest) (tag : ℕ)
      (p : Pipeline)
      → NewTag tag p
      → Inv t p
      → Inv t (
          receive
            (ok tx)
            tag
            (record { upgrade = upgrade; store = told; evaluate = sent })
            (seen tag p))
  unfolding receive handle_transaction
  hand_over-Inv false told sent tx tag p new v = refuse-Inv tag p new v
  hand_over-Inv true (err e) sent tx tag p new v = refuse-Inv tag p new v
  hand_over-Inv true (ok _) (err e) tx tag p new v =
      leak-Inv e (record { tx = tx; correlation_id = tag }) p new v
  hand_over-Inv true (ok _) (ok _) tx tag p new v =
      accept-Inv (record { tx = tx; correlation_id = tag }) p new v

  pub receive-Inv :
      (parsed : Result TransactionRequest String) (tag : ℕ) (links : Links) (p : Pipeline)
      → NewTag tag p
      → Inv t p
      → Inv t (receive parsed tag links (seen tag p))
  unfolding receive
  receive-Inv (err e) tag links p new v = refuse-Inv tag p new v
  receive-Inv (ok tx) tag links p new v =
      hand_over-Inv links.upgrade links.store links.evaluate tx tag p new v
