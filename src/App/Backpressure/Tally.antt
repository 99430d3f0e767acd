-- ===== src/App/Backpressure/Tally.antt =====
-- The account of a delivery where tasks wait: the message in the hands of a task counts as one in a
-- mailbox.
use fraud_guard.Base.{
  ℕ, ◌+◌, List, [], ◌∷◌, ◌++◌, String, Bool, true, Option, none, some, Result, ok, err, ◌==◌, ◌≡◌,
  refl, arith, count_if, count_if-append, inl, inr, Bool-cases, if◌then◌else◌,
}
use fraud_guard.Domain.Crates.{Crates}
use fraud_guard.Domain.Error.{DomainError}
use fraud_guard.Domain.Transaction.{TransactionRequest}
use fraud_guard.Api.EventLoop.{basic_nack, perform}
use fraud_guard.Api.Consumer.{AckCommand}
use fraud_guard.App.Messages.{AckMessage, EvaluateTransactionRequest}
use fraud_guard.App.Consumer.{contains}
use fraud_guard.App.Consumer.Pending.{contains-insert, contains-remove}
use fraud_guard.App.Pipeline.{ConsumerMessage, store, settle, EngineMessage, evaluate, update}
use fraud_guard.App.Pipeline.Tokens.{commands, answers, is_tag, requests_it, results_it, Account}
use fraud_guard.App.Pipeline.Account.{
  Account-cast, Account-read_store, Account-read_other, Account-read_settle, Account-settle,
  Account-settle_other, Account-store, Account-refuse, Account-reply, Account-enter,
  Account-hand_over,
}
use fraud_guard.App.Pipeline.Forward.{evaluate_transaction-tag, answers-perform}
use fraud_guard.App.Backpressure.{
  command_of, ClientTask, selecting, storing, evaluating, Flow, received, taken, worked,
}

-- One if the message in hand passes the test.
abbrev pub in_hand : {A : Type 0} → (A → Bool) → Option A → ℕ
in_hand f none = 0
in_hand f (some a) = if f a then 1 else 0

module _ ⦃X : Crates⦄ (t : ℕ) where
  -- A request that the client still has to store, and one that it has stored.
  abbrev pub to_store : ClientTask → ℕ
  to_store selecting = 0
  to_store (storing msg) = if msg.correlation_id == t then 1 else 0
  to_store (evaluating msg) = 0

  abbrev pub to_evaluate : ClientTask → ℕ
  to_evaluate selecting = 0
  to_evaluate (storing msg) = 0
  to_evaluate (evaluating msg) = if msg.correlation_id == t then 1 else 0

  abbrev pub settles_it : AckMessage → Bool
  settles_it msg = msg.correlation_id == t

  abbrev pub in_work : Flow → ℕ
  in_work s =
      to_evaluate s.client
      + count_if (requests_it t) s.requests
      + in_hand (results_it t) s.telling
      + count_if (results_it t) s.results
      + in_hand settles_it s.settling

  abbrev pub in_channel : Flow → ℕ
  in_channel s = in_hand (commands t) s.sending + count_if (commands t) s.commands

  abbrev pub answered : Flow → ℕ
  answered s = count_if (answers t) s.replies

  abbrev pub Tally : Flow → Type 0
  Tally s =
      Account t s.inbox (contains t s.pending) (count_if (is_tag t) s.seen) (in_work s)
        (in_channel s) (answered s) (to_store s.client)

  pub received-Tally :
      (parsed : Result TransactionRequest String) (tag : ℕ) (s : Flow)
      → s.client ≡ selecting
      → ((tag == t) ≡ true → count_if (is_tag t) s.seen ≡ 0)
      → Tally s
      → Tally (received parsed tag s)
  received-Tally (ok tx) tag s c fresh v = elim (Bool-cases (tag == t)) [
    | inl hit ↦
        Account-cast t s.inbox refl (ground (arith, hit)) (ground (arith, c)) refl refl
          (ground (arith, hit, c)) (Account-enter t s.inbox _ _ _ _ _ _ (fresh hit) v)
    | inr miss ↦
        Account-cast t s.inbox refl (ground (arith, miss)) (ground (arith, c)) refl refl
          (ground (arith, miss, c)) v
  ]
  received-Tally (err e) tag s c fresh v =
      let more = count_if-append (answers t) s.replies (basic_nack tag ∷ []) in
      elim (Bool-cases (tag == t)) [
        | inl hit ↦
            Account-cast t s.inbox refl (ground (arith, hit)) refl refl (ground (arith, hit, more))
              refl (Account-refuse t s.inbox _ _ _ _ _ _ (fresh hit) v)
        | inr miss ↦
            Account-cast t s.inbox refl (ground (arith, miss)) refl refl
              (ground (arith, miss, more)) refl v
      ]

  commands-command_of :
      (tag : ℕ) (result : Result (Unit {0}) DomainError)
      → commands t (command_of tag result) ≡ (tag == t)
  commands-command_of tag (ok _) = refl
  commands-command_of tag (err e) = refl

  taken-settle :
      (msg : AckMessage) (rest : List ConsumerMessage) (s : Flow)
      → s.sending ≡ none
      → Account t
          (settle msg ∷ rest)
          (contains t s.pending)
          (count_if (is_tag t) s.seen)
          (in_work s)
          (in_channel s)
          (answered s)
          (to_store s.client)
      → Tally (taken (settle msg) rest s)
  taken-settle msg rest s free v =
      let removed = contains-remove t msg.correlation_id s.pending in
      let sent = commands-command_of msg.correlation_id msg.result in
      elim (Bool-cases (msg.correlation_id == t)) [
        | inl hit ↦
            let (held, w) = Account-read_settle t rest _ _ _ _ _ _ msg hit v in
            let same : contains msg.correlation_id s.pending ≡ true = ground (arith, hit, held) in
            rw same (
              Account-cast t rest (ground (arith, removed, hit)) refl refl
                (ground (arith, free, sent, hit)) refl refl w)
        | inr miss ↦
            let w = Account-read_other t rest _ _ _ _ _ _ msg miss v in
            elim (Bool-cases (contains msg.correlation_id s.pending)) [
              | inl held ↦ rw held (
                  Account-cast t rest (ground (arith, removed, miss)) refl refl
                    (ground (arith, free, sent, miss)) refl refl w)
              | inr absent ↦
                  rw absent (Account-cast t rest refl refl refl (ground (arith, free)) refl refl w)
            ]
      ]

  -- The account of `s` with another inbox.
  abbrev pub TallyOf : Flow → List ConsumerMessage → Type 0
  TallyOf s inbox =
      Account t inbox (contains t s.pending) (count_if (is_tag t) s.seen) (in_work s) (in_channel s)
        (answered s) (to_store s.client)

  pub taken-Tally :
      (m : ConsumerMessage) (rest : List ConsumerMessage) (s : Flow)
      → s.sending ≡ none
      → TallyOf s (m ∷ rest)
      → Tally (taken m rest s)
  taken-Tally (settle msg) rest s free v = taken-settle msg rest s free v
  taken-Tally (store msg) rest s free v =
      rw contains-insert (Account-read_store t rest _ _ _ _ _ _ msg v)

  pub worked-Tally :
      (m : EngineMessage) (rest : List EngineMessage) (s : Flow)
      → s.telling ≡ none
      → s.requests ≡ m ∷ rest
      → Tally s
      → Tally (worked m rest s)
  worked-Tally (evaluate msg) rest s free e v =
      let same = evaluate_transaction-tag t s.engine msg in
      Account-cast t s.inbox refl refl (ground (arith, same, free, e)) refl refl refl v
  worked-Tally (update msg) rest s free e v =
      Account-cast t s.inbox refl refl (ground (arith, free, e)) refl refl refl v

  pub told_store-Tally :
      (msg : EvaluateTransactionRequest) (s : Flow)
      → s.client ≡ storing msg
      → Tally s
      → Tally (record s {
        client = evaluating msg;
        inbox = s.inbox ++ (store (record { correlation_id = msg.correlation_id }) ∷ []);
      })
  told_store-Tally msg s e v = elim (Bool-cases (msg.correlation_id == t)) [
    | inl hit ↦ Account-cast t _ refl refl (ground (arith, hit, e)) refl refl refl (
        Account-hand_over t s.inbox _ _ (in_work s) _ _ 0 _ hit
          (Account-cast t s.inbox refl refl refl refl refl (ground (arith, hit, e)) v))
    | inr miss ↦
        Account-cast t _ refl refl (ground (arith, miss, e)) refl refl (ground (arith, miss, e))
          (Account-store t s.inbox _ _ _ _ _ _ _ v)
  ]

  pub told_settlement-Tally :
      (msg : AckMessage) (s : Flow)
      → s.settling ≡ some msg
      → Tally s
      → Tally (record s { settling = none; inbox = s.inbox ++ (settle msg ∷ []) })
  told_settlement-Tally msg s e v = elim (Bool-cases (msg.correlation_id == t)) [
    | inl hit ↦
        Account-settle t s.inbox _ _ _ _ _ _ msg hit
          (Account-cast t s.inbox refl refl (ground (arith, hit, e)) refl refl refl v)
    | inr miss ↦
        Account-settle_other t s.inbox _ _ _ _ _ _ msg miss
          (Account-cast t s.inbox refl refl (ground (arith, miss, e)) refl refl refl v)
  ]

  pub performed-Tally :
      (cmd : AckCommand) (rest : List AckCommand) (s : Flow)
      → s.commands ≡ cmd ∷ rest
      → Tally s
      → Tally (record s { commands = rest; replies = s.replies ++ (perform cmd ∷ []) })
  performed-Tally cmd rest s e v =
      let more = count_if-append (answers t) s.replies (perform cmd ∷ []) in
      let same = answers-perform t cmd in
      elim (Bool-cases (commands t cmd)) [
        | inl hit ↦
            Account-cast t s.inbox refl refl refl refl (ground (arith, more, same, hit)) refl (
              Account-reply t s.inbox _ _ _ _ _ _
                (Account-cast t s.inbox refl refl refl (ground (arith, e, hit)) refl refl v))
        | inr miss ↦
            Account-cast t s.inbox refl refl refl (ground (arith, e, miss))
              (ground (arith, more, same, miss)) refl v
      ]
