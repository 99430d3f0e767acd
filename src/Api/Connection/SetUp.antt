-- ===== src/Api/Connection/SetUp.antt =====
-- How the set-up of a connection ends.
use fraud_guard.Base.{
  ℕ, String, List, [], ◌∷◌, ◌++◌, true, Result, ok, err, ◌≡◌, refl, ◌⊎◌, inl, inr, Result-cases, ap,
  subst,
}
use fraud_guard.Domain.Crates.{Crates}
use fraud_guard.Domain.Transaction.{TransactionRequest}
use fraud_guard.Api.EventLoop.{Event, running, returned, run}
use fraud_guard.Api.Connection.{
  Request, set_up, Asked, before, ask_all, Connection, connect_and_consume,
}

module _ {B : Type 0} (ask : Request → B → B × Result (Unit {0}) String) where
  -- The broker takes the requests, one after the other, from the first state to the second.
  abbrev pub Accepts : B → List Request → B → Type 0
  Accepts broker [] last = broker ≡ last
  Accepts broker (request ∷ requests) last =
      ((ask request broker).1 ≡ ok tt) × Accepts (ask request broker).0 requests last

  -- The broker takes the requests before one, and refuses this one.
  pub record Refused (requests : List Request) (broker : B) (asked : List Request) (e : String)
      : Type 0 where
    pub taken : List Request
    pub request : Request
    pub rest : List Request
    pub at : B
    pub split : requests ≡ taken ++ (request ∷ rest)
    pub asked_up_to : asked ≡ taken ++ (request ∷ [])
    pub accepted : Accepts broker taken at
    pub refused : (ask request at).1 ≡ err e

  -- All were asked and taken, or the first that is refused is the last that was asked.
  abbrev pub Ends : List Request → B → Asked B → Type 0
  Ends requests broker a =
      ((a.result ≡ ok tt) × (a.asked ≡ requests) × Accepts broker requests a.broker)
      ⊎ ((e : String) × (a.result ≡ err e) × Refused requests broker a.asked e)

  before-Ends :
      (request : Request) (requests : List Request) (broker : B) (a : Asked B)
      → (ask request broker).1 ≡ ok tt
      → Ends requests (ask request broker).0 a
      → Ends (request ∷ requests) broker (before request a)
  before-Ends request requests broker a k (inl (r, s, all)) =
      inl (r, ap (λ l. request ∷ l) s, (k, all))
  before-Ends request requests broker a k (inr (e, r, v)) = inr (
    e,
    r,
    record {
      taken = request ∷ v.taken;
      request = v.request;
      rest = v.rest;
      at = v.at;
      split = ap (λ l. request ∷ l) v.split;
      asked_up_to = ap (λ l. request ∷ l) v.asked_up_to;
      accepted = (k, v.accepted);
      refused = v.refused;
    },
  )

  ask_all-ok :
      (request : Request) (requests : List Request) (broker : B)
      → (ask request broker).1 ≡ ok tt
      → before request (ask_all ask requests (ask request broker).0)
        ≡ ask_all ask (request ∷ requests) broker
  unfolding ask_all
  ask_all-ok request requests broker k = rw (k, ask_all) refl

  ask_all-err :
      (request : Request) (requests : List Request) (broker : B) (e : String)
      → (ask request broker).1 ≡ err e
      → record { asked = request ∷ []; broker = (ask request broker).0; result = err e }
        ≡ ask_all ask (request ∷ requests) broker
  unfolding ask_all
  ask_all-err request requests broker e k = rw (k, ask_all) refl

  pub ask_all-Ends :
      (requests : List Request) (broker : B) → Ends requests broker (ask_all ask requests broker)
  unfolding ask_all
  ask_all-Ends [] broker = inl (refl, refl, refl)
  ask_all-Ends (request ∷ requests) broker = elim (Result-cases (ask request broker).1) [
    | inl (_, k) ↦
        subst (Ends (request ∷ requests) broker) (ask_all-ok request requests broker k)
          (before-Ends request requests broker _ k (ask_all-Ends requests (ask request broker).0))
    | inr (e, k) ↦
        subst (Ends (request ∷ requests) broker) (ask_all-err request requests broker e k) (
          inr (
            e,
            refl,
            record {
              taken = [];
              request = request;
              rest = requests;
              at = broker;
              split = refl;
              asked_up_to = refl;
              accepted = refl;
              refused = k;
            },
          ))
  ]

module _ ⦃X : Crates⦄ {B W : Type 0} (ask : Request → B → B × Result (Unit {0}) String)
    (handle_transaction : ℕ → TransactionRequest → W → Result (Unit {0}) String × W) where
  -- The broker took every request of the set-up, all were asked in order, and the session is that of
  -- the loop from its start; or the first request that it refuses was the last that was asked, and
  -- its error is what the connection returns, with no reply and no call of the handler.
  abbrev pub Begins :
      String
      → String
      → List (X.DateTime × Event)
      → B
      → W
      → Connection ask handle_transaction
      → Type 0
  Begins amqp_url queue_name events broker world c =
      ((c.asked ≡ set_up amqp_url queue_name)
        × Accepts ask broker (set_up amqp_url queue_name) c.broker
        × (c.session
            ≡ run handle_transaction events
                (record { world = world; replies = []; control = running true true })))
      ⊎ ((e : String) × Refused ask (set_up amqp_url queue_name) broker c.asked e
          × (c.session ≡ record { world = world; replies = []; control = returned (err e) }))

  -- A connection ends its set-up in one of two ways: the broker took every request, all were asked in
  -- the order of the code, and the loop runs over the events from its start; or the first request
  -- that it refuses was the last that was asked, and its error is what the connection returns, with
  -- no reply and no call of the handler.
  pub connect_and_consume-Begins :
      (amqp_url queue_name : String) (events : List (X.DateTime × Event)) (broker : B) (world : W)
      → Begins amqp_url queue_name events broker world
          (connect_and_consume ask handle_transaction amqp_url queue_name events broker world)
  unfolding connect_and_consume
  connect_and_consume-Begins amqp_url queue_name events broker world =
      elim (ask_all-Ends ask (set_up amqp_url queue_name) broker) [
        | inl (r, asked, taken) ↦ inl (asked, taken, rw r refl)
        | inr (e, r, refused) ↦ inr (e, refused, rw r refl)
      ]
