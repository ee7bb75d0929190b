-- ===== src/Models/Module.antt =====
-- The methods of ModuleBuild. A method that changes the object writes its row and returns it.
use fm_orchestrator.Common.{
  ℕ, ◌+◌, Bool, true, false, ◌&&◌, Option, none, some, String, List, [], ◌∷◌, ◌++◌, leb,
  if◌then◌else◌, filter, nat_eq, option_eq, string_eq, ◌==◌, is_truthy, strip_suffix,
}
use fm_orchestrator.Exec.{Exec, pure, raise, value_error, runtime_error}
use fm_orchestrator.Models.Rows.{
  KojiState, koji_state_eq, BuildState, init, wait, build, done, failed, ready, garbage,
  FailureType, ModuleBuild, ComponentBuild, Trace,
}
use fm_orchestrator.Models.Store.{World, put_module, component_builds}

-- The comparison of a component's state with the argument `state`, where it is given.
abbrev pub has_state : Option KojiState → ComponentBuild → Bool
has_state none c = true
has_state (some s) c = c.state == some s

-- ModuleBuild.current_batch
unfoldable pub current_batch : ModuleBuild → Option KojiState → Exec World (List ComponentBuild)
unfolding component_builds
current_batch m state w =
    if m.batch == 0
    then raise value_error w
    else pure (filter (λ c. has_state state c && c.batch == m.batch) (component_builds m w)) w

-- ModuleBuild.up_to_current_batch
unfoldable pub up_to_current_batch :
    ModuleBuild → Option KojiState → Exec World (List ComponentBuild)
unfolding component_builds
up_to_current_batch m state w =
    if m.batch == 0
    then raise value_error w
    else pure (filter (λ c. has_state state c && leb c.batch m.batch) (component_builds m w)) w

-- Whether a state is "done" or "failed", and the change of the counters that goes with it.
abbrev pub is_completion : BuildState → Bool
is_completion done = true
is_completion failed = true
is_completion _ = false

abbrev pub count_transition : BuildState → FailureType → World → World
count_transition done t w = record w { successes = w.successes + 1 }
count_transition failed t w = record w { failures = w.failures ++ t ∷ [] }
count_transition _ t w = w

abbrev pub state_code : BuildState → ℕ
state_code init = 0
state_code wait = 1
state_code build = 2
state_code done = 3
state_code failed = 4
state_code ready = 5
state_code garbage = 6

-- The object after ModuleBuild.transition.
unfoldable pub transitioned : ModuleBuild → BuildState → Option String → ℕ → ModuleBuild
transitioned m state reason now = record m {
  state = state;
  time_modified = now;
  time_completed = if is_completion state then some now else m.time_completed;
  state_reason = if is_truthy reason then reason else m.state_reason;
  trace = m.trace ++ record { state_time = now; state = state; state_reason = reason } ∷ [];
}

-- ModuleBuild.transition
unfoldable pub transition :
    ModuleBuild → BuildState → Option String → FailureType → Exec World ModuleBuild
unfolding transitioned put_module
transition m state reason failure_type w =
    let m' = transitioned m state reason w.now in
    let counted = count_transition state failure_type (put_module m' w) in
    let queued = if state_code m.state == state_code state then counted else record counted {
      out_queue = w.out_queue ++ record { module_id = m.id; state = state } ∷ [];
    } in
    pure m' queued

-- ModuleBuild.previous_non_failed_state, over the trace in reverse
abbrev first_non_failed : List Trace → Option BuildState
first_non_failed [] = none
first_non_failed (t ∷ ts) =
    if state_code t.state == state_code failed then first_non_failed ts else some t.state

-- The rows that ModuleBuild.get_by_tag selects
abbrev pub is_in_flight : String → ModuleBuild → Bool
is_in_flight tag m = (m.koji_tag == some tag) && (state_code m.state == state_code build)

abbrev pub tag_of : String → String
tag_of tag_name = elim (strip_suffix "-build" tag_name) [ none ↦ tag_name | some tag ↦ tag ]

abbrev pub at_most_one : List ModuleBuild → Exec World (Option ModuleBuild)
at_most_one [] = pure none
at_most_one (m ∷ []) = pure (some m)
at_most_one (m ∷ n ∷ ms) = raise runtime_error

-- ModuleBuild.get_by_tag
unfoldable pub get_by_tag : String → Exec World (Option ModuleBuild)
unfolding strip_suffix
get_by_tag tag_name w = at_most_one (filter (is_in_flight (tag_of tag_name)) w.modules) w
