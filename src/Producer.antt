-- ===== src/Producer.antt =====
-- The periodic tasks of module_build_service/scheduler/producer.py: `cancel_stuck_module_builds`
-- here, the others in the modules below.
pub mod Stuck
pub mod Waiting
pub mod Cleanup
pub mod Gating
pub mod Lost
pub mod Paused
pub mod Lifecycle
pub mod Tags
pub mod Tasks
pub mod Targets
use fm_orchestrator.Common.{
  ℕ, ◌+◌, ◌*◌, Bool, ◌&&◌, Option, some, String, List, [], ◌∷◌, ltb, any, filter, nat_eq, ◌==◌,
  ◌^^◌,
}
use fm_orchestrator.Exec.{Exec, for_each, pure, gets, ◌>>=◌, ◌>>◌}
use fm_orchestrator.Models.{
  BuildState, init, wait, build, done, failed, ready, garbage, FailureType, ModuleBuild, World,
  commit, transition, state_code,
}

-- The options cleanup_stuck_builds_states and cleanup_stuck_builds_time, the latter as text too.
pub record StuckOptions : Type 0 where
  pub states : List BuildState
  pub days : ℕ
  pub days_text : String

-- The number of a state as text.
abbrev pub state_text : BuildState → String
state_text init = "0"
state_text wait = "1"
state_text build = "2"
state_text done = "3"
state_text failed = "4"
state_text ready = "5"
state_text garbage = "6"

-- timedelta(days=...) in seconds
abbrev pub days_in_seconds : ℕ → ℕ
days_in_seconds days = days * 86400

module _ (options : StuckOptions) where
  -- The query. The time of the change lies before the present time less the days, and that
  -- difference is not taken here, so that it cannot stop at 0.
  abbrev pub is_stuck : ℕ → ModuleBuild → Bool
  is_stuck now m =
      any (λ s. state_code s == state_code m.state) options.states
      && ltb (m.time_modified + days_in_seconds options.days) now

  abbrev pub stuck_reason : ModuleBuild → String
  stuck_reason m =
      "The module was in "
      ^^ state_text m.state
      ^^ " for more than "
      ^^ options.days_text
      ^^ " days"

  -- The body of the loop.
  unfoldable pub fail_stuck : ModuleBuild → Exec World Unit
  unfolding transition commit
  fail_stuck m = do transition m BuildState.failed (some (stuck_reason m)) FailureType.user; commit

  unfoldable pub cancel_stuck_module_builds : Exec World Unit
  unfolding fail_stuck for_each
  cancel_stuck_module_builds = do
    stuck ← gets (λ w. filter (is_stuck w.now) w.modules)
    for_each fail_stuck stuck
