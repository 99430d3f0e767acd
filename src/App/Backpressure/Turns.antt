-- ===== src/App/Backpressure/Turns.antt =====
-- Every turn of the tasks, and what is backed by the tables.
use fraud_guard.Base.{
  ℕ, List, [], ◌∷◌, Option, none, some, ok, ◌≡◌, refl, subst, All, All-append, ltb, length,
}
use fraud_guard.Domain.Crates.{Crates, IsLawful}
use fraud_guard.Domain.Transaction.{TransactionRequest}
use fraud_guard.Domain.Rule.{Rule}
use fraud_guard.Storage.Sink.{Faults}
use fraud_guard.Api.Delivery.{Delivery, parse_delivery}
use fraud_guard.Api.Consumer.{AckCommand}
use fraud_guard.App.Messages.{AckMessage, PersistResults}
use fraud_guard.App.Pipeline.{ConsumerMessage, settle, EngineMessage}
use fraud_guard.App.Pipeline.Answering.{perform-backed}
use fraud_guard.App.Pipeline.Promise.{RequestCame, ResultCame, BackedMessage, BackedCommand}
use fraud_guard.App.Backpressure.{
  commands_capacity, ClientTask, selecting, storing, evaluating, Flow, Turn, deliver, store_told,
  evaluate_told, client_command, consumer_takes, consumer_sends, engine_takes, engine_tells,
  sink_takes, sink_tells, refresh, client_turn, take_message, send_command, take_request,
  tell_result, take_result, tell_settlement, move,
}
use fraud_guard.App.Backpressure.Sound.{
  Holds, Holds-if, ClientCame, Sound, received-Sound, taken-Sound, worked-Sound, persisted-Sound,
}

module _ ⦃X : Crates⦄ (Came : ℕ → TransactionRequest → Type 0) where
  module _ (capacity : ℕ) where
    store_told-Sound :
        (c : ClientTask) (s : Flow)
        → s.client ≡ c
        → Sound Came s
        → Holds (Sound Came) (client_turn capacity c store_told s)
    store_told-Sound selecting s e v = tt
    store_told-Sound (storing msg) s e v =
        Holds-if (Sound Came) (ltb (length s.inbox) capacity) _ (record {
          client = subst (ClientCame Came) e v.client;
          inbox = All-append _ s.inbox _ v.inbox (tt, tt);
          sending = v.sending;
          commands = v.commands;
          requests = v.requests;
          telling = v.telling;
          results = v.results;
          settling = v.settling;
          replies = v.replies;
        })
    store_told-Sound (evaluating msg) s e v = tt

    evaluate_told-Sound :
        (c : ClientTask) (s : Flow)
        → s.client ≡ c
        → Sound Came s
        → Holds (Sound Came) (client_turn capacity c evaluate_told s)
    evaluate_told-Sound selecting s e v = tt
    evaluate_told-Sound (storing msg) s e v = tt
    evaluate_told-Sound (evaluating msg) s e v =
        Holds-if (Sound Came) (ltb (length s.requests) capacity) _ (record {
          client = tt;
          inbox = v.inbox;
          sending = v.sending;
          commands = v.commands;
          requests = All-append _ s.requests _ v.requests (subst (ClientCame Came) e v.client, tt);
          telling = v.telling;
          results = v.results;
          settling = v.settling;
          replies = v.replies;
        })

    client_command-Sound :
        (c : ClientTask) (commands : List AckCommand) (s : Flow)
        → s.commands ≡ commands
        → Sound Came s
        → Holds (Sound Came) (client_turn capacity c client_command s)
    client_command-Sound selecting [] s e v = rw e tt
    client_command-Sound selecting (cmd ∷ rest) s e v =
        let (one, more) = subst (All (BackedCommand Came s.db)) e v.commands in
        rw e (record {
          client = v.client;
          inbox = v.inbox;
          sending = v.sending;
          commands = more;
          requests = v.requests;
          telling = v.telling;
          results = v.results;
          settling = v.settling;
          replies = All-append _ s.replies _ v.replies (perform-backed Came s.db cmd one, tt);
        })
    client_command-Sound (storing msg) commands s e v = tt
    client_command-Sound (evaluating msg) commands s e v = tt

    take_message-Sound :
        (sending : Option AckCommand) (inbox : List ConsumerMessage) (s : Flow)
        → s.inbox ≡ inbox
        → Sound Came s
        → Holds (Sound Came) (take_message capacity sending inbox s)
    take_message-Sound none [] s e v = tt
    take_message-Sound none (m ∷ rest) s e v =
        let (one, more) = subst (All (BackedMessage Came s.db)) e v.inbox in
        taken-Sound Came m rest s one more v
    take_message-Sound (some cmd) inbox s e v = tt

    send_command-Sound :
        (sending : Option AckCommand) (s : Flow)
        → s.sending ≡ sending
        → Sound Came s
        → Holds (Sound Came) (send_command capacity sending s)
    send_command-Sound none s e v = tt
    send_command-Sound (some cmd) s e v =
        Holds-if (Sound Came) (ltb (length s.commands) commands_capacity) _ (record {
          client = v.client;
          inbox = v.inbox;
          sending = tt;
          commands =
              All-append _ s.commands _ v.commands
                (subst (Holds (BackedCommand Came s.db)) e v.sending, tt);
          requests = v.requests;
          telling = v.telling;
          results = v.results;
          settling = v.settling;
          replies = v.replies;
        })

    take_request-Sound :
        (telling : Option PersistResults) (requests : List EngineMessage) (s : Flow)
        → s.requests ≡ requests
        → Sound Came s
        → Holds (Sound Came) (take_request capacity telling requests s)
    take_request-Sound none [] s e v = tt
    take_request-Sound none (m ∷ rest) s e v =
        let (one, more) = subst (All (RequestCame Came)) e v.requests in
        worked-Sound Came m rest s one more v
    take_request-Sound (some msg) requests s e v = tt

    tell_result-Sound :
        (telling : Option PersistResults) (s : Flow)
        → s.telling ≡ telling
        → Sound Came s
        → Holds (Sound Came) (tell_result capacity telling s)
    tell_result-Sound none s e v = tt
    tell_result-Sound (some msg) s e v =
        Holds-if (Sound Came) (ltb (length s.results) capacity) _ (record {
          client = v.client;
          inbox = v.inbox;
          sending = v.sending;
          commands = v.commands;
          requests = v.requests;
          telling = tt;
          results =
              All-append _ s.results _ v.results (subst (Holds (ResultCame Came)) e v.telling, tt);
          settling = v.settling;
          replies = v.replies;
        })

    take_result-Sound :
        IsLawful X
        → (faults : ℕ → Faults) (settling : Option AckMessage) (results : List PersistResults)
          (s : Flow)
        → s.results ≡ results
        → Sound Came s
        → Holds (Sound Came) (take_result capacity faults settling results s)
    take_result-Sound L faults none [] s e v = tt
    take_result-Sound L faults none (msg ∷ rest) s e v =
        let (one, more) = subst (All (ResultCame Came)) e v.results in
        persisted-Sound Came L faults msg rest s one more v
    take_result-Sound L faults (some reply) results s e v = tt

    tell_settlement-Sound :
        (settling : Option AckMessage) (s : Flow)
        → s.settling ≡ settling
        → Sound Came s
        → Holds (Sound Came) (tell_settlement capacity settling s)
    tell_settlement-Sound none s e v = tt
    tell_settlement-Sound (some msg) s e v =
        Holds-if (Sound Came) (ltb (length s.inbox) capacity) _ (record {
          client = v.client;
          inbox =
              All-append _ s.inbox _ v.inbox
                (subst (Holds (λ m. BackedMessage Came s.db (settle m))) e v.settling, tt);
          sending = v.sending;
          commands = v.commands;
          requests = v.requests;
          telling = v.telling;
          results = v.results;
          settling = tt;
          replies = v.replies;
        })

    deliver-Sound :
        (c : ClientTask) (now : X.DateTime) (d : Delivery) (s : Flow)
        → ((tx : TransactionRequest) → parse_delivery now d ≡ ok tx → Came d.delivery_tag tx)
        → Sound Came s
        → Holds (Sound Came) (client_turn capacity c (deliver now d) s)
    deliver-Sound selecting now d s came v =
        received-Sound Came (parse_delivery now d) d.delivery_tag s came v
    deliver-Sound (storing msg) now d s came v = tt
    deliver-Sound (evaluating msg) now d s came v = tt

    refresh-Sound :
        (rules : List Rule) (s : Flow)
        → Sound Came s
        → Holds (Sound Came) (move capacity (refresh rules) s)
    unfolding move
    refresh-Sound rules s v = Holds-if (Sound Came) (ltb (length s.requests) capacity) _ (record {
      client = v.client;
      inbox = v.inbox;
      sending = v.sending;
      commands = v.commands;
      requests = All-append _ s.requests _ v.requests (tt, tt);
      telling = v.telling;
      results = v.results;
      settling = v.settling;
      replies = v.replies;
    })

    -- A delivery of the turn comes as `Came` says.
    abbrev pub Comes : Turn → Type 0
    Comes (deliver now d) =
        (tx : TransactionRequest) → parse_delivery now d ≡ ok tx → Came d.delivery_tag tx
    Comes store_told = Unit
    Comes evaluate_told = Unit
    Comes client_command = Unit
    Comes consumer_takes = Unit
    Comes consumer_sends = Unit
    Comes engine_takes = Unit
    Comes engine_tells = Unit
    Comes (sink_takes faults) = Unit
    Comes sink_tells = Unit
    Comes (refresh rules) = Unit

    pub move-Sound :
        IsLawful X
        → (turn : Turn) (s : Flow) → Comes turn
        → Sound Came s
        → Holds (Sound Came) (move capacity turn s)
    unfolding move
    move-Sound L (deliver now d) s came v = deliver-Sound s.client now d s came v
    move-Sound L store_told s came v = store_told-Sound s.client s refl v
    move-Sound L evaluate_told s came v = evaluate_told-Sound s.client s refl v
    move-Sound L client_command s came v = client_command-Sound s.client s.commands s refl v
    move-Sound L consumer_takes s came v = take_message-Sound s.sending s.inbox s refl v
    move-Sound L consumer_sends s came v = send_command-Sound s.sending s refl v
    move-Sound L engine_takes s came v = take_request-Sound s.telling s.requests s refl v
    move-Sound L engine_tells s came v = tell_result-Sound s.telling s refl v
    move-Sound L (sink_takes faults) s came v =
        take_result-Sound L faults s.settling s.results s refl v
    move-Sound L sink_tells s came v = tell_settlement-Sound s.settling s refl v
    move-Sound L (refresh rules) s came v = refresh-Sound rules s v
