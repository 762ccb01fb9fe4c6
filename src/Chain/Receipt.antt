-- ===== src/Chain/Receipt.antt =====
-- The wait for a receipt, which both claim.go and deploy.go write out.
use ioswarm.Common.{ℕ, zero, suc, Option, none, some}

-- The first receipt among some tries, where TransactionReceipt answers the tries in their order.
unfoldable pub wait_for : {A : Type 0} → ℕ → (ℕ → Option A) → Option A
wait_for zero answers = none
wait_for (suc tries) answers = elim (answers 0) [
  | some receipt ↦ some receipt
  | none ↦ wait_for tries (λ i. answers (suc i))
]
