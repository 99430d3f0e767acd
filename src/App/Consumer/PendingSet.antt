-- ===== src/App/Consumer/PendingSet.antt =====
-- The pending deliveries as a set, whatever list stands for it, and the consumer as a machine on it.
use mathlib.Core.Bool.{Bool-set}
use mathlib.Core.Quot
use mathlib.Core.Quot.{Quot, Quot-set}
use fraud_guard.Base.{ℕ, List, Bool, ◌==◌, ◌≡◌, refl, not, ◌&&◌, ◌||◌}
use fraud_guard.App.Consumer.{contains, insert, remove}
use fraud_guard.App.Consumer.Pending.{contains-insert, contains-remove}

abbrev pub SameIds : List ℕ → List ℕ → Type 0
SameIds a b = (j : ℕ) → contains j a ≡ contains j b

-- `HashSet<CorrelationId>`
abbrev pub PendingSet : Type 0
PendingSet = Quot SameIds

unfoldable pub member : ℕ → PendingSet → Bool
member j = Quot.lift Bool-set (contains j) (λ a b h. h j)

pub insert-SameIds : (id : ℕ) (a b : List ℕ) → SameIds a b → SameIds (insert id a) (insert id b)
insert-SameIds id a b h j = rw (contains-insert, contains-insert, h j) refl

pub remove-SameIds : (id : ℕ) (a b : List ℕ) → SameIds a b → SameIds (remove id a) (remove id b)
remove-SameIds id a b h j = rw (contains-remove, contains-remove, h j) refl

unfoldable pub add : ℕ → PendingSet → PendingSet
add id =
    Quot.lift Quot-set (λ ids. Quot.mk (insert id ids))
      (λ a b h. Quot.sound (insert-SameIds id a b h))

unfoldable pub take : ℕ → PendingSet → PendingSet
take id =
    Quot.lift Quot-set (λ ids. Quot.mk (remove id ids))
      (λ a b h. Quot.sound (remove-SameIds id a b h))

pub member-add : (j id : ℕ) (s : PendingSet) → member j (add id s) ≡ (id == j || member j s)
unfolding member add
member-add j id = Quot.ind (λ s. Bool-set _ _) (λ ids. contains-insert j id ids)

pub member-take : (j id : ℕ) (s : PendingSet) → member j (take id s) ≡ (not (id == j) && member j s)
unfolding member take
member-take j id = Quot.ind (λ s. Bool-set _ _) (λ ids. contains-remove j id ids)
