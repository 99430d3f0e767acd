-- ===== src/App/Backpressure/Sound.antt =====
-- What stands for a success in the mailboxes and in the hands of the tasks, against the tables.
use fraud_guard.Base.{
  ℕ, String, List, Bool, true, false, Option, none, some, Result, ok, err, ◌≡◌, refl, sym, subst,
  All, All-append, All-imp, Bool-cases, inl, inr, if◌then◌else◌,
}
use fraud_guard.Domain.Crates.{Crates, IsLawful}
use fraud_guard.Domain.Error.{DomainError}
use fraud_guard.Domain.Transaction.{TransactionRequest}
use fraud_guard.Storage.Db.{Db}
use fraud_guard.Storage.Sink.{Faults}
use fraud_guard.App.Messages.{PersistResults}
use fraud_guard.App.Consumer.{contains}
use fraud_guard.App.Sink.{persist_results}
use fraud_guard.App.Sink.Answer.{persist_results_total}
use fraud_guard.App.Pipeline.{ConsumerMessage, store, settle, EngineMessage, evaluate, update}
use fraud_guard.App.Pipeline.Answering.{evaluate_transaction-tx, Stored-Recorded}
use fraud_guard.App.Pipeline.Promise.{
  Recorded, Recorded-mono, Backed, RequestCame, ResultCame, BackedMessage, BackedCommand,
  BackedReply, BackedMessage-mono, BackedCommand-mono, BackedReply-mono,
}
use fraud_guard.App.Backpressure.{
  command_of, ClientTask, selecting, storing, evaluating, Flow, received, taken, worked, persisted,
}

-- Whether there is one or not.
abbrev pub Holds : {A : Type 0} → (A → Type 0) → Option A → Type 0
Holds P none = Unit
Holds P (some a) = P a

pub Holds-if :
    {A : Type 0} (P : A → Type 0) (b : Bool) (a : A) → P a → Holds P (if b then some a else none)
Holds-if P true a h = h
Holds-if P false a h = tt

pub Holds-imp :
    {A : Type 0} {P Q : A → Type 0} (o : Option A) → ((a : A) → P a → Q a) → Holds P o → Holds Q o
Holds-imp none f h = tt
Holds-imp (some a) f h = f a h

module _ ⦃X : Crates⦄ (Came : ℕ → TransactionRequest → Type 0) where
  abbrev pub ClientCame : ClientTask → Type 0
  ClientCame selecting = Unit
  ClientCame (storing msg) = Came msg.correlation_id msg.tx
  ClientCame (evaluating msg) = Came msg.correlation_id msg.tx

  pub record Sound (s : Flow) : Type 0 where
    pub client : ClientCame s.client
    pub inbox : All (BackedMessage Came s.db) s.inbox
    pub sending : Holds (BackedCommand Came s.db) s.sending
    pub commands : All (BackedCommand Came s.db) s.commands
    pub requests : All (RequestCame Came) s.requests
    pub telling : Holds (ResultCame Came) s.telling
    pub results : All (ResultCame Came) s.results
    pub settling : Holds (λ msg. BackedMessage Came s.db (settle msg)) s.settling
    pub replies : All (BackedReply Came s.db) s.replies

  pub Sound-db :
      (db' : Db) (s : Flow)
      → ((tx : TransactionRequest) → Recorded tx s.db → Recorded tx db')
      → Sound s
      → Sound (record s { db = db' })
  Sound-db db' s mono v =
      let message = BackedMessage-mono Came s.db db' mono in
      let command = BackedCommand-mono Came s.db db' mono in
      record {
        client = v.client;
        inbox = All-imp s.inbox message v.inbox;
        sending = Holds-imp s.sending command v.sending;
        commands = All-imp s.commands command v.commands;
        requests = v.requests;
        telling = v.telling;
        results = v.results;
        settling = Holds-imp s.settling (λ msg h. message (settle msg) h) v.settling;
        replies = All-imp s.replies (BackedReply-mono Came s.db db' mono) v.replies;
      }

  command_of-backed :
      (db : Db) (tag : ℕ) (result : Result (Unit {0}) DomainError)
      → (result ≡ ok tt → Backed Came db tag)
      → BackedCommand Came db (command_of tag result)
  command_of-backed db tag (ok _) h = h refl
  command_of-backed db tag (err e) h = tt

  pub received-Sound :
      (parsed : Result TransactionRequest String) (tag : ℕ) (s : Flow)
      → ((tx : TransactionRequest) → parsed ≡ ok tx → Came tag tx)
      → Sound s
      → Sound (received parsed tag s)
  received-Sound (ok tx) tag s came v = record {
    client = came tx refl;
    inbox = v.inbox;
    sending = v.sending;
    commands = v.commands;
    requests = v.requests;
    telling = v.telling;
    results = v.results;
    settling = v.settling;
    replies = v.replies;
  }
  received-Sound (err e) tag s came v = record {
    client = v.client;
    inbox = v.inbox;
    sending = v.sending;
    commands = v.commands;
    requests = v.requests;
    telling = v.telling;
    results = v.results;
    settling = v.settling;
    replies = All-append _ s.replies _ v.replies (tt, tt);
  }

  pub taken-Sound :
      (m : ConsumerMessage) (rest : List ConsumerMessage) (s : Flow)
      → BackedMessage Came s.db m
      → All (BackedMessage Came s.db) rest
      → Sound s
      → Sound (taken m rest s)
  taken-Sound (store msg) rest s h more v = record {
    client = v.client;
    inbox = more;
    sending = v.sending;
    commands = v.commands;
    requests = v.requests;
    telling = v.telling;
    results = v.results;
    settling = v.settling;
    replies = v.replies;
  }
  taken-Sound (settle msg) rest s h more v =
      elim (Bool-cases (contains msg.correlation_id s.pending)) [
        | inl held ↦ rw held (record {
          client = v.client;
          inbox = more;
          sending = command_of-backed s.db msg.correlation_id msg.result h;
          commands = v.commands;
          requests = v.requests;
          telling = v.telling;
          results = v.results;
          settling = v.settling;
          replies = v.replies;
        })
        | inr free ↦ rw free (record {
          client = v.client;
          inbox = more;
          sending = tt;
          commands = v.commands;
          requests = v.requests;
          telling = v.telling;
          results = v.results;
          settling = v.settling;
          replies = v.replies;
        })
      ]

  pub worked-Sound :
      (m : EngineMessage) (rest : List EngineMessage) (s : Flow)
      → RequestCame Came m
      → All (RequestCame Came) rest
      → Sound s
      → Sound (worked m rest s)
  worked-Sound (evaluate msg) rest s h more v = record {
    client = v.client;
    inbox = v.inbox;
    sending = v.sending;
    commands = v.commands;
    requests = more;
    telling = evaluate_transaction-tx Came s.engine msg h;
    results = v.results;
    settling = v.settling;
    replies = v.replies;
  }
  worked-Sound (update msg) rest s h more v = record {
    client = v.client;
    inbox = v.inbox;
    sending = v.sending;
    commands = v.commands;
    requests = more;
    telling = v.telling;
    results = v.results;
    settling = v.settling;
    replies = v.replies;
  }

  pub persisted-Sound :
      IsLawful X
      → (faults : ℕ → Faults) (msg : PersistResults) (rest : List PersistResults) (s : Flow)
      → ResultCame Came msg
      → All (ResultCame Came) rest
      → Sound s
      → Holds Sound (persisted (persist_results faults msg s.db) rest s)
  persisted-Sound L faults msg rest s came more v =
      let (db', reply, done, same, stored, atomic) = persist_results_total L faults msg s.db in
      let w = Sound-db db' s (λ tx r. Recorded-mono tx msg.tx msg.decision s.db db' atomic r) v in
      rw done (record {
        client = w.client;
        inbox = w.inbox;
        sending = w.sending;
        commands = w.commands;
        requests = w.requests;
        telling = w.telling;
        results = more;
        settling = λ good. (
          msg.tx,
          subst (λ tag. Came tag msg.tx) (sym same) came,
          Stored-Recorded Came L msg.tx msg.decision s.db db' (stored good),
        );
        replies = w.replies;
      })
