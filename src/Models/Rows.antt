-- ===== src/Models/Rows.antt =====
-- The columns of module_build_service/common/models.py that the scheduler reads or writes.
-- Times are numbers of seconds; a missing value is `none`.
use fm_orchestrator.Common.{
  ℕ, Bool, true, ◌≡◌, ◌↔◌, Option, String, List, EqualityTest, nat_eq, ◌==◌, arith,
}

-- BUILD_STATES
pub data BuildState : Type 0 where
  init wait build done failed ready garbage : BuildState

-- koji.BUILD_STATES, the states of a component build; a component that waits has none.
pub data KojiState : Type 0 where
  building complete deleted failed canceled : KojiState

abbrev pub koji_code : KojiState → ℕ
koji_code KojiState.building = 0
koji_code KojiState.complete = 1
koji_code KojiState.deleted = 2
koji_code KojiState.failed = 3
koji_code KojiState.canceled = 4

pub koji_code_iff : (a b : KojiState) → ((koji_code a == koji_code b) ≡ true) ↔ (a ≡ b)
koji_code_iff a b = ground arith

instance abbrev pub koji_state_eq : EqualityTest KojiState
koji_state_eq = record {
  is_equal = λ a b. koji_code a == koji_code b;
  is_equal_iff = koji_code_iff;
}

-- STATE_TRANSITION_FAILURE_TYPES
pub data FailureType : Type 0 where
  unspec user infra : FailureType

-- ModuleBuild.rebuild_strategies
pub data RebuildStrategy : Type 0 where
  all_components changed_and_after only_changed : RebuildStrategy

-- The part of a parsed modulemd document that the scheduler reads or changes.
pub record Mmd : Type 0 where
  pub rpm_macros : Option String
  -- xmd["mbs"]["buildrequires"], each module with its stream
  pub buildrequires : List (String × String)
  pub rpm_arches : List (String × List String)
  pub rpm_filters : List String

-- ModuleBuildTrace
pub record Trace : Type 0 where
  pub state_time : ℕ
  pub state : BuildState
  pub state_reason : Option String

pub record ModuleBuild : Type 0 where
  pub id : ℕ
  pub name : String
  pub stream : String
  pub version : ℕ
  pub context : String
  pub build_context : Option String
  pub build_context_no_bms : Option String
  pub scmurl : Option String
  pub state : BuildState
  pub state_reason : Option String
  pub mmd : Mmd
  pub koji_tag : Option String
  pub scratch : Bool
  pub time_modified : ℕ
  pub time_completed : Option ℕ
  pub new_repo_task_id : Option ℕ
  pub rebuild_strategy : RebuildStrategy
  pub reused_module_id : Option ℕ
  pub batch : ℕ
  pub trace : List Trace

pub record ComponentBuild : Type 0 where
  pub id : ℕ
  pub package_name : String
  pub scmurl : String
  pub task_id : Option ℕ
  pub ref : Option String
  pub state : Option KojiState
  pub state_reason : Option String
  pub nvr : Option String
  pub tagged : Bool
  pub tagged_in_final : Bool
  pub build_time_only : Bool
  pub buildonly : Bool
  pub batch : ℕ
  pub module_id : ℕ
  pub reused_component_id : Option ℕ
  pub weight : ℕ

-- LogMessage
pub record LogMessage : Type 0 where
  pub component_build_id : Option ℕ
  pub module_build_id : ℕ
  pub message : String
