-- ===== src/Domain/Repository/Client.antt =====
-- A client of a repository of transactions that keeps its promise.
use mathlib.Core.List.{Memᴰ}
use mathlib.Core.List.Memᴰ.{head, tail}
use fraud_guard.Base.{List, [], ◌∷◌, ok, All, ap, ◌≡◌, ◌↔◌, ◌⊎◌, inl, inr}
use fraud_guard.Domain.Crates.{Crates}
use fraud_guard.Domain.AccountId.{AccountId}
use fraud_guard.Domain.Transaction.{TransactionRequest}
use fraud_guard.Domain.Repository.{
  TransactionRepository, IsTransactionStore, HasAccounts, InPeriod, Ascending, times,
}

module _ ⦃X : Crates⦄ {S : Type 0} (repo : TransactionRepository S) where
  -- The stores after the insertions, each of which succeeds.
  abbrev pub Inserts : List TransactionRequest → S → S → Type 0
  Inserts [] s last = s ≡ last
  Inserts (tx ∷ txs) s last =
      ((repo.insert_transaction tx s).1 ≡ ok tt) × Inserts txs (repo.insert_transaction tx s).0 last

  module _ {IsValid : S → Type 0} {holds : TransactionRequest → S → Type 0}
      (v : IsTransactionStore repo IsValid holds) where
    Inserts-holds :
        (txs : List TransactionRequest) (s last : S)
        → IsValid s
        → All HasAccounts txs
        → Inserts txs s last
        → IsValid last × ((u : TransactionRequest) → holds u last ↔ (holds u s ⊎ Memᴰ u txs))
    Inserts-holds [] s last i h e =
        rw (← e) (i, λ u. (inl, λ c. elim c [ inl k ↦ k | inr m ↦ elim m [ ] ]))
    Inserts-holds (tx ∷ txs) s last i h (done, more) =
        let next = (repo.insert_transaction tx s).0 in
        let (i', one) = v.inserted tx s next i h.0 (ap (λ r. (next, r)) done) in
        let (j, rest) = Inserts-holds txs next last i' h.1 more in
        (
          j,
          λ u. (
            λ k. elim ((rest u).0 k) [
              | inr m ↦ inr (tail m)
              | inl old ↦ elim ((one u).0 old) [ inl k ↦ inl k | inr e ↦ inr (head e) ]
            ],
            λ c. elim c [
              | inl k ↦ (rest u).1 (inl ((one u).1 (inl k)))
              | inr (head e) ↦ (rest u).1 (inl ((one u).1 (inr e)))
              | inr (tail m) ↦ (rest u).1 (inr m)
            ],
          ),
        )

    -- With any repository that keeps the promise of the trait: where transactions with well-formed
    -- accounts are inserted, each with success, a later request for an account and a period that
    -- succeeds gives exactly the transactions from this account in this period that were in the store
    -- before or were inserted, by ascending time.
    pub Inserts-fetched :
        (txs : List TransactionRequest) (s last : S)
        → IsValid s
        → All HasAccounts txs
        → Inserts txs s last
        → (account : AccountId) (from to : X.DateTime) (found : List TransactionRequest)
        → repo.get_transactions_for_account account from to last ≡ ok found
        → ((u : TransactionRequest)
            → Memᴰ u found ↔ ((holds u s ⊎ Memᴰ u txs) × InPeriod account from to u))
          × Ascending (times found)
    Inserts-fetched txs s last i h all account from to found e =
        let (j, both) = Inserts-holds txs s last i h all in
        let (among, order) = v.fetched account from to last found j e in
        (
          λ u. (
            λ m. let (k, p) = (among u).0 m in ((both u).0 k, p),
            λ (c, p). (among u).1 ((both u).1 c, p),
          ),
          order,
        )
