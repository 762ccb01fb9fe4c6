-- ===== src/Agent/Single.antt =====
-- How many of the workers set up L4.
use mathlib.Core.Path.{subst}
use ioswarm.Common.{
  ℕ, suc, ◌+◌, ◌≡◌, refl, ap, List, [], ◌∷◌, Bytes, codes, bytes_eq, Bool, true, false, ◌&&◌, not,
  ◌==◌, if◌then◌else◌, length, map, arith, if_elim,
}
use ioswarm.Common.Text.{to_upper, to_lower, split, trim_space, onto_first}
use ioswarm.Agent.Level.{comma}
use ioswarm.Agent.Worker.{WorkerConfig, is_l4_worker}
use ioswarm.Agent.Main.{
  Flags, Course, llm_proxy, missing_agent_id, missing_data_dir, validators, with_env, worker_config,
  workers_from, workers, course_of, main_course,
}

-- The number of workers that open a state store.
abbrev pub l4_count : List WorkerConfig → ℕ
l4_count [] = 0
l4_count (cfg ∷ cfgs) = (if is_l4_worker cfg then 1 else 0) + l4_count cfgs

later_not_l4 :
    (flags : Flags) (keys : List Bytes) (idx : ℕ) (coord : Bytes)
    → is_l4_worker (worker_config flags keys (suc idx) coord) ≡ false
unfolding is_l4_worker
later_not_l4 flags keys idx coord = ground arith

later_l4_count :
    (flags : Flags) (keys coords : List Bytes) (idx : ℕ)
    → l4_count (workers_from flags keys (suc idx) coords) ≡ 0
unfolding workers_from
later_l4_count flags keys [] idx = refl
later_l4_count flags keys (coord ∷ coords) idx =
    rw (later_not_l4 flags keys idx coord)
      (omega (arith, later_l4_count flags keys coords (suc idx)))

-- strings.Split gives one part at least.
abbrev IsSome : List Bytes → Type 0
IsSome [] = ⊥
IsSome (part ∷ parts) = Unit {0}

split-IsSome : (sep : ℕ) (s : Bytes) → IsSome (split sep s)
unfolding split
split-IsSome sep [] = tt
split-IsSome sep (c ∷ s) = if_elim IsSome (c == sep) (λ t. tt) (λ t. onto (split sep s))
  where
    onto : (parts : List Bytes) → IsSome (onto_first c parts)
    onto [] = tt
    onto (part ∷ parts) = tt

workers_count :
    (flags : Flags) (keys coords : List Bytes)
    → IsSome coords
    → (bytes_eq (to_upper flags.level) (codes "L4") && length flags.data_dir == 0) ≡ false
    → l4_count (workers_from flags keys 0 (map trim_space coords))
      ≡ (if bytes_eq (to_upper flags.level) (codes "L4") then 1 else 0)
unfolding workers_from is_l4_worker
workers_count flags keys [] some_part has_dir = absurd some_part
workers_count flags keys (coord ∷ coords) some_part has_dir =
    rw (later_l4_count flags keys (map trim_space coords) 0)
      (counted (bytes_eq (to_upper flags.level) (codes "L4")) (length flags.data_dir == 0) has_dir)
  where
    counted :
        (is4 no_dir : Bool)
        → (is4 && no_dir) ≡ false
        → (if (is4 && not no_dir) && true then 1 else 0) + 0 ≡ (if is4 then 1 else 0)
    counted true true h = cc
    counted true false h = refl
    counted false no_dir h = refl

started : Course → List WorkerConfig
started (validators both cfgs) = cfgs
started _ = []

-- If main starts the workers of validation, then one of them opens a state store where the level
-- reads L4 in capitals, and none elsewhere, whatever the environment, and however many
-- coordinators are named.
pub main_course_single :
    (getenv : Bytes → Bytes) (flags : Flags) (both : Bool) (cfgs : List WorkerConfig)
    → main_course getenv flags ≡ validators both cfgs
    → l4_count cfgs ≡ (if bytes_eq (to_upper flags.level) (codes "L4") then 1 else 0)
unfolding main_course course_of with_env workers started
main_course_single getenv flags both cfgs is_course =
    go (bytes_eq (to_lower flags.mode) (codes "llm")) (length f.agent_id == 0)
      (bytes_eq (to_upper flags.level) (codes "L4") && length f.data_dir == 0) refl is_course
  where
    f : Flags
    f = with_env getenv flags

    go :
        (llm no_id no_dir : Bool)
        → (bytes_eq (to_upper flags.level) (codes "L4") && length f.data_dir == 0) ≡ no_dir
        → Path Course
            (if llm
              then llm_proxy
              else if no_id
              then missing_agent_id
              else if no_dir
              then missing_data_dir
              else validators (bytes_eq (to_lower flags.mode) (codes "both")) (workers f))
            (validators both cfgs)
        → l4_count cfgs ≡ (if bytes_eq (to_upper flags.level) (codes "L4") then 1 else 0)
    go true no_id no_dir t same = cc
    go false true no_dir t same = cc
    go false false true t same = cc
    go false false false t same =
        subst (λ cs. l4_count cs ≡ (if bytes_eq (to_upper flags.level) (codes "L4") then 1 else 0))
          (ap started same)
          (workers_count f (map trim_space (split comma f.api_key)) (split comma f.coordinator)
            (split-IsSome comma f.coordinator) t)
