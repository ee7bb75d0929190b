-- ===== src/Builder.antt =====
-- The part of module_build_service/builder/base.py (GenericBuilder) that the scheduler calls.
-- A backend is a record of answers; what a call changes in the build system is noted in the store.
pub mod Koji
pub mod Laws
pub mod TagName
use fm_orchestrator.Common.{ℕ, zero, suc, Bool, false, true, Option, none, some, String, List}
use fm_orchestrator.Exec.{Exec, Result, ◌>>=◌, pure}
use fm_orchestrator.Models.{KojiState, ComponentBuild, World}

-- The configured value of conf.system.
pub data System : Type 0 where
  koji test mock : System

-- conf.system in ("koji", "test")
abbrev pub is_koji_or_test : System → Bool
is_koji_or_test System.mock = false
is_koji_or_test _ = true

-- common/config.py: the options that the scheduler reads.
pub record Config : Type 0 where
  pub system : System
  pub num_concurrent_builds : ℕ

-- The 4-tuple that `build` returns.
pub record BuildReply : Type 0 where
  pub task_id : Option ℕ
  pub state : Option KojiState
  pub state_reason : Option String
  pub nvr : Option String

-- A submission returns, or raises an exception of which the code uses the text.
pub data Submission : Type 0 where
  submitted : BuildReply → Submission
  refused : (text : String) → Submission

pub record Builder : Type 0 where
  pub module_build_tag : String
  pub build_artifact : (artifact_name source : String) → Submission
  -- The component with the changes that were made to it, and whether a build was found.
  pub recover_orphaned_artifact : ComponentBuild → Exec World (ComponentBuild × Bool)
  -- The ids of the active tasks as text, or nothing where the backend returns no list.
  pub list_tasks_for_components : List ComponentBuild → Option (List String)
  pub buildroot_ready : List (Option String) → Bool
  -- What the call answers, beside its effect in the build system.
  pub untag_artifacts : List (Option String) → Result Unit

-- The truth of an id or None.
abbrev pub is_truthy_id : Option ℕ → Bool
is_truthy_id none = false
is_truthy_id (some zero) = false
is_truthy_id (some (suc n)) = true
