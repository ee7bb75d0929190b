-- ===== src/Handlers/Lifecycle/All.antt =====
-- The life cycle of a module build through every handler that
-- module_build_service/scheduler/consumer.py calls, "init" and "wait" excepted.
use fm_orchestrator.Common.{◌≡◌, ◌≢◌, refl, sym, ◌∙◌, ℕ, Bool, true, false, some, String}
use fm_orchestrator.Exec.{ok}
use fm_orchestrator.Exec.Ensures.{Ensures-always}
use fm_orchestrator.Models.{
  BuildState, ModuleBuild, World, Event, Finalize, get_by_tag, component_builds,
}
use fm_orchestrator.Models.History.{Follows, History-entered, start, module_row}
use fm_orchestrator.Models.Keys.{HasDistinctKeys}
use fm_orchestrator.Handlers.{Services, Task, perform, find_module}
use fm_orchestrator.Handlers.Lifecycle.{BackendLaws}
use fm_orchestrator.Handlers.Lifecycle.Repos.{AreAllBuilt, repos_done-Ends}
use fm_orchestrator.Handlers.Lifecycle.Tags.{tagged-Ends}
use fm_orchestrator.Handlers.Lifecycle.Components.{build_task_finalize-Ends}
use fm_orchestrator.Handlers.Lifecycle.Modules.{passes, module_failed-Ends, module_done-Ends}
use fm_orchestrator.Handlers.Lifecycle.Decision.{IsSatisfied, decision_update-Ends}

-- The changes of state that a handler may make in a store, each with the key of the module build:
-- there is none for a tag.
pub data Edge (services : Services) (w : World) : Task → ℕ → BuildState → BuildState → Type 0 where
  component_fails :
      (e : Finalize) (id : ℕ) (s : BuildState)
      → Edge services w (Task.event (Event.build_task_finalize e)) id s BuildState.failed
  repo_fails :
      (msg_id tag_name : String) (id : ℕ) (s : BuildState)
      → Edge services w (Task.event (Event.repos_done msg_id tag_name)) id s BuildState.failed
  -- The module build of the tag, where all of its components are built.
  repo_finishes :
      (msg_id tag_name : String) (n : ModuleBuild)
      → get_by_tag tag_name w ≡ (ok (some n), w)
      → AreAllBuilt (component_builds n w)
      → Edge services w
          (Task.event (Event.repos_done msg_id tag_name))
          n.id
          BuildState.build
          BuildState.done
  module_fails :
      (id : ℕ) (s : BuildState) → Edge services w (Task.module_failure id) id s BuildState.failed
  -- The module build of the message, where it is no scratch build and its gate is open.
  module_passes :
      (id : ℕ) (n : ModuleBuild)
      → find_module id w ≡ some n
      → n.scratch ≡ false
      → passes services.greenwave n ≡ true
      → Edge services w (Task.module_completion id) id n.state BuildState.ready
  decision_passes :
      (context subject : String) (satisfied : Bool) (n : ModuleBuild)
      → IsSatisfied services context subject satisfied w n
      → Edge services w
          (Task.greenwave_decision context subject satisfied)
          n.id
          BuildState.done
          BuildState.ready

-- The message is one for the tag of the module build with the key, and all of it is built.
pub record IsBuilt (w : World) (task : Task) (k : ℕ) : Type 0 where
  pub msg_id : String
  pub tag_name : String
  pub built : ModuleBuild
  pub same_task : task ≡ Task.event (Event.repos_done msg_id tag_name)
  pub same_id : built.id ≡ k
  pub found : get_by_tag tag_name w ≡ (ok (some built), w)
  pub all_built : AreAllBuilt (component_builds built w)

same_done :
    (n o : ModuleBuild) → some n ≡ some o → n.state ≡ BuildState.done → o.state ≡ BuildState.done
same_done n o h e = cc

module _ (services : Services) (laws : BackendLaws services) (i : ℕ) (m : ModuleBuild) (w : World)
    (keys : HasDistinctKeys w.modules) where
  task-Follows :
      (task : Task)
      → Follows (Edge services w task) i m w
      → Follows (Edge services w task) i m (perform services task w).1
  unfolding perform
  task-Follows (Task.event (Event.build_task_finalize e)) h =
      Ensures-always (Follows _ i m) _
        (build_task_finalize-Ends services laws _ i m (component_fails e) e w h)
  task-Follows (Task.event (Event.repos_done msg_id tag_name)) h =
      Ensures-always (Follows _ i m) _ (
        repos_done-Ends services laws _ i m (repo_fails msg_id tag_name) tag_name w keys
          (λ n e s built. rw s (repo_finishes msg_id tag_name n e built)) h)
  task-Follows (Task.event (Event.tagged _ tag_name build_nvr)) h =
      Ensures-always (Follows _ i m) _ (tagged-Ends services laws _ i m tag_name build_nvr w keys h)
  task-Follows (Task.module_failure id) h =
      Ensures-always (Follows _ i m) _
        (module_failed-Ends services laws _ i m id w (module_fails id) h)
  task-Follows (Task.module_completion id) h =
      Ensures-always (Follows _ i m) _
        (module_done-Ends services laws _ i m id w (module_passes id) h)
  task-Follows (Task.greenwave_decision context subject satisfied) h =
      decision_update-Ends services context subject satisfied _ i m w
        (decision_passes context subject satisfied) h

  -- A handler, however it ends, leaves the row of a module build there, with a history from the
  -- row before: edits that keep its state and its trace, and transitions, each with one more
  -- entry of the trace for the new state. The transitions are those that Edge allows the handler:
  -- it fails a build, or finishes the build of a regenerated tag whose components are all built,
  -- or passes a build that is no scratch build and whose gate is open, or passes one that is done
  -- and satisfies Greenwave; a message about a tag changes no state. The keys are distinct, and
  -- the backends that can be created keep the rules of recover_orphaned_artifact.
  pub perform-Follows :
      (task : Task)
      → module_row i w.modules ≡ some m
      → Follows (Edge services w task) i m (perform services task w).1
  perform-Follows task row =
      task-Follows task (record { current = m; row = row; past = start; keys = keys })

  finishing-Edge :
      (task : Task) (k : ℕ) (t s : BuildState)
      → Edge services w task k t s
      → s ≡ BuildState.done
      → IsBuilt w task k
  finishing-Edge _ _ _ _ (component_fails e id s) q = absurd cc
  finishing-Edge _ _ _ _ (repo_fails msg_id tag_name id s) q = absurd cc
  finishing-Edge _ _ _ _ (module_fails id s) q = absurd cc
  finishing-Edge _ _ _ _ (module_passes id n _ _ _) q = absurd cc
  finishing-Edge _ _ _ _ (decision_passes context subject satisfied n _) q = absurd cc
  finishing-Edge _ _ _ _ (repo_finishes msg_id tag_name n found built) q = record {
    msg_id = msg_id;
    tag_name = tag_name;
    built = n;
    same_task = refl;
    same_id = refl;
    found = found;
    all_built = built;
  }

  -- Where a handler moves a module build to the "done" state, the message was one for the
  -- regenerated repository of its tag, and none of its components waits, runs, failed or was
  -- canceled. The keys are distinct, and the backends that can be created keep the rules of
  -- recover_orphaned_artifact.
  pub perform-IsBuilt :
      (task : Task) (n : ModuleBuild)
      → module_row i w.modules ≡ some m
      → module_row i (perform services task w).1.modules ≡ some n
      → m.state ≢ BuildState.done
      → n.state ≡ BuildState.done
      → IsBuilt w task m.id
  perform-IsBuilt task n before after was_not is_done =
      let h = perform-Follows task before in
      let edge =
        History-entered (Edge services w task) m h.current BuildState.done h.past
          (same_done n h.current (sym after ∙ h.row) is_done) was_not in
      finishing-Edge task m.id edge.0 BuildState.done edge.1 refl
