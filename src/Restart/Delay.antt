-- ===== src/Restart/Delay.antt =====
-- The delay before a restart (config/restart.rs).
use kepler.Prelude.{ℕ, ◌≡◌, ◌≢◌, ◌≤◌, ◌↔◌, none, some, arith}
use kepler.Duration.{Duration}
use kepler.Restart.{RestartConfig, Floats, delay, max_delay, compute_restart_delay, delay_secs}

module _ (fl : Floats) (r : RestartConfig) (count : ℕ) where
  -- Where a maximum is set, no delay passes it, whatever the factor and the number of restarts.
  pub compute_restart_delay-le-max_delay :
      {d : Duration} → max_delay r ≢ 0 → compute_restart_delay fl r count ≡ some d → d ≤ max_delay r
  unfolding compute_restart_delay
  compute_restart_delay-le-max_delay cap h = ground arith

  -- The computation panics exactly when a delay is set and the product of the delay and the power
  -- is no `Duration`; a maximum does not prevent it.
  pub compute_restart_delay_panics :
      (compute_restart_delay fl r count ≡ none)
      ↔ ((delay r ≢ 0) × (fl.from_secs_f64 (delay_secs fl r count) ≡ none))
  unfolding compute_restart_delay
  compute_restart_delay_panics = ground arith
