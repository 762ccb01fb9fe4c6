-- ===== src/Chain/Wait.antt =====
-- The first receipt counts.
use ioswarm.Common.{ℕ, zero, suc, ◌<◌, ◌≡◌, refl, Option, none, some, arith}
use ioswarm.Chain.Receipt.{wait_for}

-- The first receipt among some tries.
pub record IsFirst {A : Type 0} (tries : ℕ) (answers : ℕ → Option A) (receipt : A) : Type 0 where
  pub index : ℕ
  pub in_time : index < tries
  pub here : answers index ≡ some receipt
  pub none_before : (i : ℕ) → i < index → answers i ≡ none

-- What the wait gives.
abbrev pub IsWait : {A : Type 0} → ℕ → (ℕ → Option A) → Option A → Type 0
IsWait tries answers (some receipt) = IsFirst tries answers receipt
IsWait tries answers none = (i : ℕ) → i < tries → answers i ≡ none

earlier :
    {A : Type 0} (answers : ℕ → Option A) (n : ℕ)
    → answers 0 ≡ none
    → ((i : ℕ) → i < n → answers (suc i) ≡ none)
    → (i : ℕ) → i < suc n
    → answers i ≡ none
earlier answers n here rest zero below = here
earlier answers n here rest (suc i) below = rest i (omega (arith, below))

later-IsWait :
    {A : Type 0} (tries : ℕ) (answers : ℕ → Option A)
    → answers 0 ≡ none
    → (r : Option A) → IsWait tries (λ i. answers (suc i)) r
    → IsWait (suc tries) answers r
later-IsWait tries answers here none all = earlier answers tries here all
later-IsWait tries answers here (some receipt) first = record {
  index = suc first.index;
  in_time = omega (arith, first.in_time);
  here = first.here;
  none_before = earlier answers first.index here first.none_before;
}

nothing_below : {B : Type 0} (i : ℕ) → i < 0 → B
nothing_below i below = absurd (omega (arith, below))

pub wait_for-IsWait :
    {A : Type 0} (tries : ℕ) (answers : ℕ → Option A)
    → IsWait tries answers (wait_for tries answers)
unfolding wait_for
wait_for-IsWait zero answers = λ i below. nothing_below i below
wait_for-IsWait {A = A} (suc tries) answers =
    by_answer (answers 0) refl (wait_for-IsWait tries (λ i. answers (suc i)))
  where
    by_answer :
        (o : Option A)
        → answers 0 ≡ o
        → IsWait tries (λ i. answers (suc i)) (wait_for tries (λ i. answers (suc i)))
        → IsWait
            (suc tries)
            answers
            (elim o [ some receipt ↦ some receipt | none ↦ wait_for tries (λ i. answers (suc i)) ])
    by_answer none here rest = later-IsWait tries answers here _ rest
    by_answer (some receipt) here rest = record {
      index = 0;
      in_time = omega arith;
      here = here;
      none_before = λ i below. nothing_below i below;
    }
