-- ===== src/Deps/Condition/Laws.antt =====
-- What the conditions of deps.rs say together: transient exits, dependencies that can never be
-- satisfied, and conditions that a restart policy rules out.
use kepler.Prelude.{String, ◌≡◌, ◌⊎◌, true, false, not, ◌&&◌, none, some, arith}
use kepler.State.{ServiceState, stopped, failed, killed, skipped}
use kepler.Restart.{RestartConfig, should_restart_on_exit, policy}
use kepler.Deps.{DependencyConfig}
use kepler.Deps.Condition.{
  is_zero, is_transient_satisfaction, is_condition_met, Unreachable,
  is_condition_unreachable_by_policy,
}

module _ {T : Type 0} (s : ServiceState T) (dep : DependencyConfig) (r : RestartConfig) where
  -- Knowing the restart policy of a dependency takes away exactly the transient exits: its
  -- condition is met if it is met without the policy and the policy does not restart the service.
  pub is_condition_met_filtered :
      is_condition_met s dep (some r)
      ≡ (is_condition_met s dep none && not (is_transient_satisfaction s r))
  unfolding is_condition_met
  is_condition_met_filtered = ground arith

  -- A condition that the restart policy is said to rule out is met only by a service that was
  -- stopped, by one that failed to start, or by a skipped one that is allowed to be, provided that
  -- a killed service has not the exit code 0.
  pub unreachable_met :
      (name : String) (reason : Unreachable)
      → is_condition_unreachable_by_policy name dep.condition (policy r) ≡ some reason
      → (s.status ≡ killed → is_zero s.exit_code ≡ false)
      → is_condition_met s dep (some r) ≡ true
      → (s.status ≡ stopped)
        ⊎ (s.status ≡ failed)
        ⊎ ((s.status ≡ skipped) × (dep.allow_skipped ≡ true))
  unfolding is_condition_met is_condition_unreachable_by_policy should_restart_on_exit
  unreachable_met name reason u k m = ground arith
