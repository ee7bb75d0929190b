-- ===== src/Handlers/Env.antt =====
-- What the handlers of module_build_service/scheduler/handlers share: the services that they ask,
-- and the queries for one row.
use fm_orchestrator.Common.{
  ℕ, Bool, Option, none, some, String, List, filter, first, map, nat_eq, ◌==◌, join, ◌^^◌,
}
use fm_orchestrator.Exec.{Exec, Result, pure, raise, attribute_error, lift, ◌>>=◌, ◌>>◌}
use fm_orchestrator.Models.{ModuleBuild, ComponentBuild, World, Call, call, is_unsuccessful}
use fm_orchestrator.Builder.{Config, Builder}
use fm_orchestrator.Reuse.{ReuseEnv}

-- The answer of Greenwave about a build, and whether the query failed.
pub record Gate : Type 0 where
  pub check_gating : ModuleBuild → Bool
  pub error_occurred : ModuleBuild → Bool

pub record Services : Type 0 where
  pub config : Config
  pub reuse : ReuseEnv
  -- GenericBuilder.create for the module build
  pub create_builder : ModuleBuild → Result Builder
  -- The names of the RPMs that Koji lists for an nvr.
  pub list_build_rpms : Option String → List String
  pub new_repo_task : (tag : String) → ℕ
  -- Whether a task is free, open or assigned.
  pub is_task_active : ℕ → Bool
  pub greenwave : Option Gate
  pub greenwave_decision_context : String
  -- The id that the Koji build of an nvr carries under extra.typeinfo.module.
  pub module_build_service_id : (nvr : String) → Option ℕ
  pub recursion_limit : ℕ

-- ModuleBuild.get_by_id, and the module of a component
unfoldable pub find_module : ℕ → World → Option ModuleBuild
find_module id w = first (filter (λ m. m.id == id) w.modules)

-- The first use of a missing row raises an AttributeError.
abbrev pub required : Option ModuleBuild → Exec World ModuleBuild
required none = raise attribute_error
required (some m) = pure m

-- GenericBuilder.create_from_module
unfoldable pub create_from_module : Services → ModuleBuild → Exec World Builder
unfolding call
create_from_module services m = do
  builder ← lift (services.create_builder m)
  call Call.buildroot_connect
  pure builder

abbrev pub failure_reason : List ComponentBuild → String
failure_reason cs =
    "Component(s) "
    ^^ join (map (λ c. c.package_name) (filter is_unsuccessful cs))
    ^^ " failed to build."
