-- ===== src/Agent/Switch.antt =====
-- The number that a level is registered under, and the checks that it selects.
use mathlib.Core.Path.{subst⁻¹}
use ioswarm.Common.{
  ℕ, ◌≡◌, refl, inl, inr, Option, Bytes, codes, bytes_eq, bytes_eq_iff, false, if◌then◌else◌, ◌==◌,
  Bool-cases,
}
use ioswarm.Common.Text.{to_upper}
use ioswarm.Wire.{Protowire}
use ioswarm.Store.{Bolt, StateStore}
use ioswarm.Types.{TaskPackage}
use ioswarm.StateDb.{Geth}
use ioswarm.Evm.{Interpreter}
use ioswarm.Validator.{
  ValidationResult, validate_l1, validate_l2, validate_l3, validate_l4, validate_at,
}
use ioswarm.Agent.Level.{parse_level}

module _ (w : Protowire) (b : Bolt) (fuel : ℕ) (g : Geth) (vm : Interpreter) where
  -- The checks that the wire's number of a level stands for.
  abbrev pub validate_by : Option (StateStore b) → TaskPackage → ℕ → ValidationResult
  validate_by store task level =
      if level == 0
      then validate_l1 task
      else if level == 2
      then validate_l3 g vm task
      else if level == 3
      then validate_l4 w b fuel g vm store task
      else validate_l2 task

  at_other :
      (store : Option (StateStore b)) (task : TaskPackage) (level : Bytes)
      → bytes_eq level (codes "L1") ≡ false
      → bytes_eq level (codes "L3") ≡ false
      → bytes_eq level (codes "L4") ≡ false
      → validate_at w b fuel g vm store task level
        ≡ validate_by store task (if bytes_eq (to_upper level) level then parse_level level else 1)
  unfolding validate_at parse_level
  at_other store task level n1 n3 n4 = elim (Bool-cases (bytes_eq (to_upper level) level)) [
    | inl same ↦
        rw (validate_at, n1, n3, n4, same, number ((bytes_eq_iff (to_upper level) level).0 same))
    | inr other ↦ rw (validate_at, n1, n3, n4, other)
  ]
    where
      number : to_upper level ≡ level → parse_level level ≡ 1
      number same = rw (parse_level, same, n1, n3, n4)

  -- For every level, validateTask runs the checks of the number that parseLevel gives, if the
  -- level is written in capitals, and those of L2 otherwise.
  pub validate_at-parse_level :
      (store : Option (StateStore b)) (task : TaskPackage) (level : Bytes)
      → validate_at w b fuel g vm store task level
        ≡ validate_by store task (if bytes_eq (to_upper level) level then parse_level level else 1)
  unfolding validate_at parse_level to_upper bytes_eq
  validate_at-parse_level store task level = elim (Bool-cases (bytes_eq level (codes "L1"))) [
    | inl is1 ↦
        subst⁻¹
          (λ l.
            validate_at w b fuel g vm store task l
            ≡ validate_by store task (if bytes_eq (to_upper l) l then parse_level l else 1))
          ((bytes_eq_iff level (codes "L1")).0 is1) refl
    | inr n1 ↦ elim (Bool-cases (bytes_eq level (codes "L3"))) [
      | inl is3 ↦
          subst⁻¹
            (λ l.
              validate_at w b fuel g vm store task l
              ≡ validate_by store task (if bytes_eq (to_upper l) l then parse_level l else 1))
            ((bytes_eq_iff level (codes "L3")).0 is3) refl
      | inr n3 ↦ elim (Bool-cases (bytes_eq level (codes "L4"))) [
        | inl is4 ↦
            subst⁻¹
              (λ l.
                validate_at w b fuel g vm store task l
                ≡ validate_by store task (if bytes_eq (to_upper l) l then parse_level l else 1))
              ((bytes_eq_iff level (codes "L4")).0 is4) refl
        | inr n4 ↦ at_other store task level n1 n3 n4
      ]
    ]
  ]
