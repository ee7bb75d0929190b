-- ===== src/Producer/Lost.antt =====
-- `fail_lost_builds` and `retrigger_new_repo_on_failure` of
-- module_build_service/scheduler/producer.py.
use fm_orchestrator.Common.{
  ℕ, Bool, true, false, ◌&&◌, Option, none, some, String, List, [], ◌∷◌, filter, is_some,
  if◌then◌else◌, nat_eq, ◌==◌, ◌^^◌,
}
use fm_orchestrator.Exec.{Exec, pure, raise, type_error, gets, modify, for_each, ◌>>=◌, ◌>>◌}
use fm_orchestrator.Models.{
  BuildState, KojiState, ModuleBuild, ComponentBuild, World, Event, Delayed, Call, put_module,
  commit, call, delay, state_code, is_building,
}
use fm_orchestrator.Handlers.{find_module, required}
use fm_orchestrator.Builder.{System, is_truthy_id}
use fm_orchestrator.Producer.Cleanup.{is_koji}

-- koji.TASK_STATES
pub data TaskState : Type 0 where
  free opened closed canceled assigned failed : TaskState

-- What the tasks ask of Koji: the state of a task, the version and release of each build of a
-- task, the name of a tag as Koji gives it, and the task that regenerates the repository of a tag.
pub record KojiTasks : Type 0 where
  pub task_state : ℕ → TaskState
  pub list_builds : ℕ → List (String × String)
  pub tag_name : String → String
  pub new_repo : String → ℕ

-- state_mapping
abbrev pub final_state : TaskState → Option KojiState
final_state TaskState.canceled = some KojiState.failed
final_state TaskState.failed = some KojiState.failed
final_state TaskState.closed = some KojiState.complete
final_state _ = none

-- The version and the release of the build, where the task has exactly one; "None" is what the
-- handler makes of a missing value.
abbrev pub only_build : List (String × String) → String × String
only_build (b ∷ []) = b
only_build _ = ("None", "None")

abbrev pub version_release : TaskState → List (String × String) → String × String
version_release TaskState.closed builds = only_build builds
version_release _ builds = ("None", "None")

module _ (koji : KojiTasks) where
  abbrev pub report : ComponentBuild → ℕ → KojiState → Delayed
  report c task_id state =
      let (version, release) =
        version_release (koji.task_state task_id) (koji.list_builds task_id) in
      Delayed.handler (
        Event.build_task_finalize (record {
          msg_id = "producer::fail_lost_builds fake msg";
          task_id = some task_id;
          build_new_state = some state;
          build_name = c.package_name;
          build_version = version;
          build_release = release;
          module_build_id = none;
          state_reason = none;
        }))

  abbrev pub report_state : ComponentBuild → ℕ → Option KojiState → Exec World Unit
  report_state c task_id none = pure tt
  report_state c task_id (some state) = delay (report c task_id state)

  abbrev pub check_task : ComponentBuild → Option ℕ → Exec World Unit
  check_task c none = pure tt
  check_task c (some task_id) = report_state c task_id (final_state (koji.task_state task_id))

  -- The body of the first loop.
  unfoldable pub check_building : ComponentBuild → Exec World Unit
  unfolding delay
  check_building c =
      if is_truthy_id c.task_id
      then (if is_truthy_id c.reused_component_id then pure tt else check_task c c.task_id)
      else pure tt

  unfoldable pub fail_lost_builds : System → Exec World Unit
  unfolding check_building for_each
  fail_lost_builds system =
      if is_koji system
      then (do res ← gets (λ w. filter is_building w.components); for_each check_building res)
      else pure tt

  abbrev pub waits_for_repo : ModuleBuild → Bool
  waits_for_repo m =
      (state_code m.state == state_code BuildState.build) && is_some m.new_repo_task_id

  abbrev pub is_lost : TaskState → Bool
  is_lost TaskState.canceled = true
  is_lost TaskState.failed = true
  is_lost _ = false

  -- Another regeneration; without a tag the name of the build tag raises.
  abbrev pub start_another : ModuleBuild → Option String → Exec World Unit
  start_another m none = raise type_error
  start_another m (some tag) = do
    let name = koji.tag_name (tag ^^ "-build")
    call (Call.new_repo name)
    modify (put_module (record m { new_repo_task_id = some (koji.new_repo name) }))

  abbrev pub retrigger_for : ModuleBuild → Option ℕ → Exec World Unit
  retrigger_for m none = pure tt
  retrigger_for m (some task_id) =
      if is_lost (koji.task_state task_id) then start_another m m.koji_tag else pure tt

  -- The body of the second loop. The attributes of a mapped object are those of its row.
  unfoldable pub retrigger : ModuleBuild → Exec World Unit
  unfolding call put_module find_module
  retrigger n = do
    found ← gets (find_module n.id)
    m ← required found
    retrigger_for m m.new_repo_task_id

  unfoldable pub retrigger_new_repo_on_failure : System → Exec World Unit
  unfolding retrigger for_each commit
  retrigger_new_repo_on_failure system =
      if is_koji system
      then (do
        builds ← gets (λ w. filter waits_for_repo w.modules)
        for_each retrigger builds
        commit)
      else pure tt

  -- has_missed_new_repo_message
  abbrev pub is_closed : TaskState → Bool
  is_closed TaskState.closed = true
  is_closed _ = false

  abbrev pub task_closed : Option ℕ → Bool
  task_closed none = false
  task_closed (some task_id) = is_closed (koji.task_state task_id)

  unfoldable pub has_missed_new_repo_message : ModuleBuild → Bool
  has_missed_new_repo_message m =
      if is_truthy_id m.new_repo_task_id then task_closed m.new_repo_task_id else true
