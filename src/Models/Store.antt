-- ===== src/Models/Store.antt =====
-- What a handler works on: the rows of the session, the clock, the queue of the event scheduler,
-- the messages of common/messaging.py, the counters of common/monitor.py, and the calls made to
-- the build system.
use fm_orchestrator.Common.{
  ℕ, Bool, Option, String, List, [], ◌∷◌, ◌++◌, if◌then◌else◌, filter, nat_eq, ◌==◌,
}
use fm_orchestrator.Exec.{Exec, modify}
use fm_orchestrator.Models.Rows.{
  BuildState, KojiState, FailureType, ModuleBuild, ComponentBuild, LogMessage,
}

-- The arguments of handlers.components.build_task_finalize.
pub record Finalize : Type 0 where
  pub msg_id : String
  pub task_id : Option ℕ
  pub build_new_state : Option KojiState
  pub build_name : String
  pub build_version : String
  pub build_release : String
  pub module_build_id : Option ℕ
  pub state_reason : Option String

-- A handler and its arguments, as `events.scheduler.add` takes them.
pub data Event : Type 0 where
  repos_done : (msg_id tag_name : String) → Event
  tagged : (msg_id tag_name : String) (build_nvr : Option String) → Event
  build_task_finalize : Finalize → Event

-- The body of a state change message, by the fields that identify the change.
pub record Message : Type 0 where
  pub module_id : ℕ
  pub state : BuildState

-- A call that changes the build system.
pub data Call : Type 0 where
  build : (artifact_name source : String) → Call
  buildroot_connect : Call
  buildroot_add_artifacts : (artifacts : List (Option String)) (install : Bool) → Call
  tag_artifacts : (artifacts : List (Option String)) (dest_tag : Bool) → Call
  new_repo : (tag : String) → Call
  cancel_build : (task_id : ℕ) → Call
  finalize : (succeeded : Bool) → Call
  untag_artifacts : (nvrs : List (Option String)) → Call
  delete_build_target : (target_id : ℕ) → Call

-- A handler that Celery is asked to run, by `delay`: one for the change of a module's state, or
-- one that `events.scheduler` takes too.
pub data Delayed : Type 0 where
  module_change : (module_build_id : ℕ) (state : BuildState) → Delayed
  handler : Event → Delayed

-- The tables as the last commit left them.
pub record Tables : Type 0 where
  pub modules : List ModuleBuild
  pub components : List ComponentBuild
  pub log_messages : List LogMessage

pub record World : Type 0 where
  pub modules : List ModuleBuild
  pub components : List ComponentBuild
  pub log_messages : List LogMessage
  pub now : ℕ
  pub events : List Event
  pub out_queue : List Message
  pub sent : List Message
  pub successes : ℕ
  pub failures : List FailureType
  pub calls : List Call
  pub broker : List Delayed
  pub saved : Tables

-- An assignment to a mapped object writes the row with its primary key.
unfoldable pub put_module_row : ModuleBuild → List ModuleBuild → List ModuleBuild
put_module_row m [] = []
put_module_row m (n ∷ ns) = if n.id == m.id then m ∷ ns else n ∷ put_module_row m ns

unfoldable pub put_component_row : ComponentBuild → List ComponentBuild → List ComponentBuild
put_component_row c [] = []
put_component_row c (d ∷ ds) = if d.id == c.id then c ∷ ds else d ∷ put_component_row c ds

unfoldable pub put_module : ModuleBuild → World → World
put_module m w = record w { modules = put_module_row m w.modules }

unfoldable pub put_component : ComponentBuild → World → World
put_component c w = record w { components = put_component_row c w.components }

-- The relationship module.component_builds.
unfoldable pub component_builds : ModuleBuild → World → List ComponentBuild
component_builds m w = filter (λ c. c.module_id == m.id) w.components

-- db_session.commit() with the hook send_message_after_module_build_state_change, which sends
-- all messages of the queue in their order.
unfoldable pub commit : Exec World Unit
commit = modify (λ w. record w {
  sent = w.sent ++ w.out_queue;
  out_queue = [];
  saved = record { modules = w.modules; components = w.components; log_messages = w.log_messages };
})

-- db_session.rollback(), which leaves the queues, the counters and the build system as they are.
unfoldable pub rollback : Exec World Unit
rollback = modify (λ w. record w {
  modules = w.saved.modules;
  components = w.saved.components;
  log_messages = w.saved.log_messages;
})

-- events.scheduler.add
unfoldable pub add_event : Event → Exec World Unit
add_event e = modify (λ w. record w { events = w.events ++ e ∷ [] })

unfoldable pub call : Call → Exec World Unit
call c = modify (λ w. record w { calls = w.calls ++ c ∷ [] })

-- handler.delay, for a task that Celery runs later
unfoldable pub delay : Delayed → Exec World Unit
delay d = modify (λ w. record w { broker = w.broker ++ d ∷ [] })
