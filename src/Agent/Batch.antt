-- ===== src/Agent/Batch.antt =====
-- processBatch and what it sends.
use ioswarm.Common.{
  ℕ, suc, ◌+◌, ◌-◌, ◌%◌, ◌^◌, Option, List, [], ◌∷◌, ◌++◌, Bytes, codes, ltb, if◌then◌else◌, length,
  take, drop,
}
use ioswarm.Wire.{Protowire}
use ioswarm.Store.{Bolt, StateStore}
use ioswarm.Types.{TaskPackage, TaskResult}
use ioswarm.StateDb.{Geth}
use ioswarm.Evm.{Interpreter}
use ioswarm.Validator.{validate_task}

pub record TaskBatch : Type 0 where
  pub batch_id : Bytes
  pub tasks : List TaskPackage
  pub timestamp : ℕ

pub record BatchResult : Type 0 where
  pub agent_id : Bytes
  pub batch_id : Bytes
  pub results : List TaskResult
  pub timestamp : ℕ

-- What one task meets: the latency that is measured, and `activeStateStore`, which the sync loop
-- changes beside the tasks.
pub record Moment (b : Bolt) : Type 0 where
  pub latency : ℕ
  pub active : Option (StateStore b)

-- The form of an address on the screen.
unfoldable pub short : Bytes → Bytes
short s = if ltb 12 (length s) then take 6 s ++ codes ".." ++ drop (length s - 4) s else s

module _ (w : Protowire) (b : Bolt) (fuel : ℕ) (g : Geth) (vm : Interpreter) where
  -- The tasks in their order, each at its own moment.
  unfoldable pub process_tasks : (ℕ → Moment b) → Bytes → List TaskPackage → List TaskResult
  process_tasks moments level [] = []
  process_tasks moments level (task ∷ tasks) =
      let moment = moments 0 in
      validate_task w b fuel g vm moment.latency moment.active task level
      ∷ process_tasks (λ i. moments (suc i)) level tasks

  -- The results, and `tasksProcessed`, a uint32.
  unfoldable pub process_batch : (ℕ → Moment b) → ℕ → TaskBatch → Bytes → List TaskResult × ℕ
  unfolding process_tasks
  process_batch moments tasks_processed batch level =
      let results = process_tasks moments level batch.tasks in
      (results, (tasks_processed + length results) % 2 ^ 32)
