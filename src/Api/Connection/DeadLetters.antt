-- ===== src/Api/Connection/DeadLetters.antt =====
-- Where the broker puts a message that a queue rejects, as documented for the requests of AMQP: to
-- the exchange that the declaration of the queue names, and from a direct exchange to the queues
-- bound to it with the routing key.
use mathlib.Core.List.{Memᴰ}
use fraud_guard.Base.{
  ℕ, String, List, [], ◌∷◌, Bool, true, false, not, ◌&&◌, ◌||◌, Option, none, some, Result, ◌=s=◌,
  eq_iff, ◌≡◌, refl, sym, subst, inl, inr, if◌then◌else◌, arith,
}
use fraud_guard.Domain.Crates.{Crates}
use fraud_guard.Domain.Transaction.{TransactionRequest}
use fraud_guard.Api.EventLoop.{Event, Reply}
use fraud_guard.Api.Connection.{
  FieldTable, Request, connect, create_channel, exchange_declare, queue_declare, queue_bind,
  basic_consume, set_up, dlq_queue, dlx_exchange, dead_letter_args, connect_and_consume,
}
use fraud_guard.Api.Connection.SetUp.{Accepts, connect_and_consume-Begins}

abbrev field : String → FieldTable → Option String
field key [] = none
field key ((k, value) ∷ rest) = if k =s= key then some value else field key rest

-- The arguments of the last declaration of the queue.
abbrev declared_args : String → List Request → Option FieldTable
declared_args queue [] = none
declared_args queue (connect url ∷ rest) = declared_args queue rest
declared_args queue (create_channel ∷ rest) = declared_args queue rest
declared_args queue (exchange_declare exchange kind durable ∷ rest) = declared_args queue rest
declared_args queue (queue_declare q options args ∷ rest) = elim (declared_args queue rest) [
  | some later ↦ some later
  | none ↦ if q =s= queue then some args else none
]
declared_args queue (queue_bind q exchange key ∷ rest) = declared_args queue rest
declared_args queue (basic_consume q tag ∷ rest) = declared_args queue rest

-- Is the durable exchange declared?
abbrev is_exchange : String → List Request → Bool
is_exchange exchange [] = false
is_exchange exchange (connect url ∷ rest) = is_exchange exchange rest
is_exchange exchange (create_channel ∷ rest) = is_exchange exchange rest
is_exchange exchange (exchange_declare x kind durable ∷ rest) =
    ((x =s= exchange) && durable) || is_exchange exchange rest
is_exchange exchange (queue_declare q options args ∷ rest) = is_exchange exchange rest
is_exchange exchange (queue_bind q x key ∷ rest) = is_exchange exchange rest
is_exchange exchange (basic_consume q tag ∷ rest) = is_exchange exchange rest

-- Is the queue declared, to outlive the broker and the consumer?
abbrev is_lasting : String → List Request → Bool
is_lasting queue [] = false
is_lasting queue (connect url ∷ rest) = is_lasting queue rest
is_lasting queue (create_channel ∷ rest) = is_lasting queue rest
is_lasting queue (exchange_declare x kind durable ∷ rest) = is_lasting queue rest
is_lasting queue (queue_declare q options args ∷ rest) =
    ((q =s= queue) && (options.durable && (not options.exclusive && not options.auto_delete)))
    || is_lasting queue rest
is_lasting queue (queue_bind q x key ∷ rest) = is_lasting queue rest
is_lasting queue (basic_consume q tag ∷ rest) = is_lasting queue rest

-- The queues bound to the exchange with the key.
abbrev routed : String → String → List Request → List String
routed exchange key [] = []
routed exchange key (connect url ∷ rest) = routed exchange key rest
routed exchange key (create_channel ∷ rest) = routed exchange key rest
routed exchange key (exchange_declare x kind durable ∷ rest) = routed exchange key rest
routed exchange key (queue_declare q options args ∷ rest) = routed exchange key rest
routed exchange key (queue_bind q x k ∷ rest) =
    if (x =s= exchange) && (k =s= key)
    then q ∷ routed exchange key rest
    else routed exchange key rest
routed exchange key (basic_consume q tag ∷ rest) = routed exchange key rest

-- The requests give rejected messages of the queue to the other one, which lasts, and to no other.
pub record RejectsTo (queue target : String) (requests : List Request) : Type 0 where
  pub args : FieldTable
  pub exchange : String
  pub key : String
  pub declared : declared_args queue requests ≡ some args
  pub to_exchange : field "x-dead-letter-exchange" args ≡ some exchange
  pub with_key : field "x-dead-letter-routing-key" args ≡ some key
  pub there : is_exchange exchange requests ≡ true
  pub to_target : routed exchange key requests ≡ target ∷ []
  pub queue_lasts : is_lasting queue requests ≡ true
  pub target_lasts : is_lasting target requests ≡ true

eq_refl : (s : String) → (s =s= s) ≡ true
eq_refl s = (eq_iff s s).1 refl

pub set_up-RejectsTo :
    (amqp_url queue_name : String) → RejectsTo queue_name dlq_queue (set_up amqp_url queue_name)
unfolding set_up
set_up-RejectsTo amqp_url queue_name = record {
  args = dead_letter_args;
  exchange = dlx_exchange;
  key = dlq_queue;
  declared = rw (eq_refl queue_name, declared_args) refl;
  to_exchange = refl;
  with_key = refl;
  there = refl;
  to_target = refl;
  queue_lasts = ground (arith, eq_refl queue_name);
  target_lasts = refl;
}

module _ ⦃X : Crates⦄ {B W : Type 0} (ask : Request → B → B × Result (Unit {0}) String)
    (handle_transaction : ℕ → TransactionRequest → W → Result (Unit {0}) String × W) where
  -- Where a connection answers a delivery, the broker has taken all that was asked, and among it the
  -- declarations by which messages that the queue rejects go to the durable dead-letter queue and to
  -- no other: whatever the broker answers to the requests, and whatever comes.
  pub replies-RejectsTo :
      (amqp_url queue_name : String) (events : List (X.DateTime × Event)) (broker : B) (world : W)
      (reply : Reply)
      → Memᴰ reply
          (connect_and_consume ask handle_transaction amqp_url queue_name events broker
            world).session.replies
      → RejectsTo queue_name dlq_queue
          (connect_and_consume ask handle_transaction amqp_url queue_name events broker world).asked
        × Accepts ask broker
            (connect_and_consume ask handle_transaction amqp_url queue_name events broker
              world).asked
            (connect_and_consume ask handle_transaction amqp_url queue_name events broker
              world).broker
  replies-RejectsTo amqp_url queue_name events broker world reply m =
      let c = connect_and_consume ask handle_transaction amqp_url queue_name events broker world in
      elim (connect_and_consume-Begins ask handle_transaction amqp_url queue_name events broker
        world) [
          | inl (asked, taken, session) ↦ (
            subst (RejectsTo queue_name dlq_queue) (sym asked)
                (set_up-RejectsTo amqp_url queue_name),
            subst (λ requests. Accepts ask broker requests c.broker) (sym asked) taken,
          )
          | inr (e, refused, session) ↦ elim (subst (λ s. Memᴰ reply s.replies) session m) [ ]
        ]
