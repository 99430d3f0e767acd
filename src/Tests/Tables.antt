-- ===== src/Tests/Tables.antt =====
-- The tables after a history.
use mathlib.Core.List.{Memᴰ}
use mathlib.Core.List.Memᴰ.{head, tail}
use fraud_guard.Base.{List, [], ◌∷◌, some, ok, ◌≡◌, ◌⊎◌, ◌↔◌, ap, refl, sym, subst}
use fraud_guard.Base.Text.{trim, all_chars, is_ascii_digit}
use fraud_guard.Domain.AccountId
use fraud_guard.Domain.Currency
use fraud_guard.Domain.Decision.{decline}
use fraud_guard.Domain.Rule.{evaluate}
use fraud_guard.Domain.Transaction.{TransactionRequest, validate}
use fraud_guard.Storage.Table.{add_or_nothing, find}
use fraud_guard.Storage.Db.{
  Db, DecisionRow, TransactionRow, transaction_row, decision_key, insert_transaction_or_nothing,
  insert_decision_or_nothing,
}
use fraud_guard.Storage.Repo.{in_period}
use fraud_guard.Storage.Sink.{
  insert_transaction_and_decision, attempt_insert_transaction_and_decision,
}
use fraud_guard.Api.Consumer
use fraud_guard.Api.Delivery.{parse_delivery}
use fraud_guard.App.Consumer.{handle_transaction, store_delivery, ack_message, insert, remove}
use fraud_guard.App.Engine.{evaluate_transaction}
use fraud_guard.App.Sink.{persist_results}
use fraud_guard.App.Pipeline.{run, step}
use fraud_guard.App.Pipeline.Acked.{Arrived}
use fraud_guard.App.Pipeline.Start.{start}
use fraud_guard.App.Pipeline.Tables.{IsPaired, run-IsPaired, run-find}
use fraud_guard.Api.EventLoop.{basic_ack}
use fraud_guard.App.Pipeline.Outcome.{IsDecision, acked_decided}
use fraud_guard.App.Pipeline.Typed.{Typed, run-Typed}
use fraud_guard.App.Pipeline.Readback.{tables_after, history_fetched}
use fraud_guard.Domain.Repository.{InPeriod, Ascending, times}
use fraud_guard.Storage.Postgres.{transactions}
use fraud_guard.Storage.Postgres.Period.{Holds}
use fraud_guard.Tests.Pools.{transaction_pool, transaction_pool-Fetches}
use fraud_guard.Tests.Sample.{crates, lawful, payment, stored}
use fraud_guard.Tests.Storage.{empty}
use fraud_guard.Tests.Pipeline.{history_replies, actions, url, engine}

abbrev row : TransactionRow
row = record {
  transaction_id = "t1";
  source_account = "1111222233334444";
  destination_account = "5555666677778888";
  amount = payment.amount;
  currency = "RUB";
  timestamp = 50;
}

history_transactions : (run actions (start url engine empty)).db.transactions ≡ row ∷ []
unfolding run step parse_delivery handle_transaction store_delivery ack_message insert remove
    evaluate_transaction persist_results insert_transaction_and_decision
    attempt_insert_transaction_and_decision insert_transaction_or_nothing insert_decision_or_nothing
    add_or_nothing transaction_row validate evaluate start AccountId.new trim all_chars
    is_ascii_digit Currency.from_str Currency.to_string Consumer.send_ack
history_transactions = refl

-- The transaction was declined before, and comes again.
abbrev declined : DecisionRow
declined = record { transaction_id = "t1"; decision = stored (decline "no") }

abbrev before : Db
before = record { transactions = row ∷ []; decisions = declined ∷ [] }

before-start : find decision_key "t1" (start url engine before).db.decisions ≡ some declined
unfolding start
before-start = refl

start-IsPaired : IsPaired (start url engine before).db
unfolding start
start-IsPaired id = refl

run-IsPaired_example : IsPaired (run actions (start url engine before)).db
run-IsPaired_example = run-IsPaired lawful actions (start url engine before) start-IsPaired

run-find_example :
    find decision_key "t1" (run actions (start url engine before)).db.decisions ≡ some declined
run-find_example = run-find lawful "t1" declined actions (start url engine before) before-start

abbrev account : AccountId.AccountId
account = payment.source_account

fetched_rows :
    transaction_pool.fetch_all
      (in_period account 0 99)
      (tables_after url engine empty actions).transactions
    ≡ ok (row ∷ [])
fetched_rows = ap (λ l. transaction_pool.fetch_all (in_period account 0 99) l) history_transactions

history_fetched_run :
    (txs : List TransactionRequest) × ((transactions transaction_pool).get_transactions_for_account
        account 0 99
        (tables_after url engine empty actions)
      ≡ ok txs)
    × ((u : TransactionRequest)
        → Memᴰ u txs ↔ (Holds u (tables_after url engine empty actions) × InPeriod account 0 99 u))
    × Ascending (times txs)
history_fetched_run =
    history_fetched lawful transaction_pool transaction_pool-Fetches url engine empty actions
      account 0 99 (row ∷ []) tt fetched_rows

run-Typed_example : Typed (run actions (start url engine empty))
run-Typed_example = run-Typed lawful url engine empty actions tt

acked_decided_example :
    (tx : TransactionRequest) × (row : DecisionRow) × Arrived actions 7 tx
    × Memᴰ row (run actions (start url engine empty)).db.decisions
    × (row.transaction_id ≡ tx.id.uuid)
    × (Memᴰ row empty.decisions ⊎ IsDecision engine actions row)
acked_decided_example =
    acked_decided lawful url engine empty actions 7
      (subst (Memᴰ (basic_ack 7)) (sym history_replies) (tail (head refl)))
