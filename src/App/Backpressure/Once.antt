-- ===== src/App/Backpressure/Once.antt =====
-- Whole histories with bounded mailboxes: how often a delivery is answered.
use fraud_guard.Base.{ℕ, ◌+◌, ◌≤◌, [], none, ◌≡◌, refl, sym, ap, ◌∙◌, arith, count_if, subst}
use fraud_guard.Domain.Crates.{Crates}
use fraud_guard.Storage.Db.{Db}
use fraud_guard.App.Engine.{EngineActor}
use fraud_guard.App.Pipeline.Tokens.{settles}
use fraud_guard.App.Backpressure.{Flow, Trail, here, next}
use fraud_guard.App.Backpressure.Rounds.{ready}
use fraud_guard.App.Backpressure.Sound.{Holds}
use fraud_guard.App.Backpressure.Counts.{counted, counted_mono, sightings, After, move-After}
use fraud_guard.App.Backpressure.Tally.{Tally, to_store, in_work, in_channel, answered}

module _ ⦃X : Crates⦄ (t : ℕ) where
  -- How many messages stand for the delivery, in the hands of the tasks, the mailboxes and the
  -- channel.
  abbrev pub under_way : Flow → ℕ
  under_way s = to_store t s.client + in_work t s + count_if (settles t) s.inbox + in_channel t s

  module _ (capacity : ℕ) where
    -- How often the history delivers the tag.
    abbrev pub deliveries : {s u : Flow} → Trail capacity s u → ℕ
    deliveries here = 0
    deliveries (next r turn e) = counted t turn (deliveries r)

    Trail-Tally :
        {s u : Flow} (r : Trail capacity s u)
        → sightings t s ≡ 0
        → deliveries r ≤ 1
        → Tally t s
        → Tally t u × (sightings t u ≡ deliveries r)
    Trail-Tally here z once v = (v, z)
    Trail-Tally (next {t = m} r turn e) z once v =
        let (w, n) = Trail-Tally r z (omega (arith, once, counted_mono t turn (deliveries r))) v in
        let (x, k) =
          subst (Holds (After t (counted t turn (sightings t m)))) e
            (move-After t capacity turn m (subst (λ i. counted t turn i ≤ 1) (sym n) once) w) in
        (x, k ∙ ap (counted t turn) n)

    -- Whatever the capacity of the mailboxes is, in every history from the start in which tasks wait
    -- at full mailboxes and that delivers the tag `t` at most once, a delivery of `t` is either
    -- answered once, with nothing of it under way, or not answered yet, with exactly one message that
    -- stands for it: waiting at a full mailbox loses no delivery and answers none twice.
    pub bounded_accounted :
        {s : Flow} (engine : EngineActor) (db : Db)
        (r : Trail capacity (ready capacity [] [] none [] [] engine db [] []) s)
        → deliveries r ≤ 1
        → deliveries r ≡ answered t s + under_way s
    bounded_accounted engine db r once =
        let fresh : Tally t (ready capacity [] [] none [] [] engine db [] []) = record {
          counted = refl;
          once = omega arith;
          ready = tt;
          waiting = λ h. absurd (omega (arith, h));
        } in
        let (v, n) = Trail-Tally r refl once fresh in omega (arith, v.counted, n)
