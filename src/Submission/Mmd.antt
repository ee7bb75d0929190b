-- ===== src/Submission/Mmd.antt =====
-- The parts of a modulemd document that module_build_service/scheduler/submit.py reads, and the
-- component builds that it plans.
use fm_orchestrator.Common.{
  ℕ, Bool, Option, none, some, String, List, [], ◌∷◌, string_eq, ◌==◌, if◌then◌else◌,
}

-- An RPM component; an empty text or list is one that is not given.
pub record RpmComponent : Type 0 where
  pub name : String
  pub repository : String
  pub cache : String
  pub ref : String
  pub buildorder : ℕ
  pub buildonly : Bool
  pub buildafter : List String
  pub arches : List String

-- An included module.
pub record ModuleComponent : Type 0 where
  pub name : String
  pub repository : String
  pub ref : String
  pub buildorder : ℕ

-- xmd["mbs"]["rpms"]: the ref of each package, which is None for a custom SRPM.
abbrev pub Refs : Type 0
Refs = List (String × Option String)

pub record ModuleMd : Type 0 where
  pub name : String
  pub rpms : List RpmComponent
  pub modules : List ModuleComponent
  pub refs : Option Refs

abbrev pub find_ref : String → Refs → Option (Option String)
find_ref name [] = none
find_ref name ((n, ref) ∷ refs) =
    let rest = find_ref name refs in if n == name then some ref else rest

-- d[name] = ref
abbrev pub set_ref : String → Option String → Refs → Refs
set_ref name ref [] = (name, ref) ∷ []
set_ref name ref ((n, r) ∷ refs) =
    let rest = set_ref name ref refs in if n == name then (n, ref) ∷ refs else (n, r) ∷ rest

-- d.update(more)
abbrev pub update_refs : Refs → Refs → Refs
update_refs refs [] = refs
update_refs refs ((n, r) ∷ more) = update_refs (set_ref n r refs) more

-- merge_included_mmd
unfoldable pub merge_included_mmd : Option Refs → Option Refs → Option Refs
merge_included_mmd main none = main
merge_included_mmd none (some refs) = some refs
merge_included_mmd (some main) (some refs) = some (update_refs main refs)

-- A component of either kind.
pub data Component : Type 0 where
  rpm : RpmComponent → Component
  included : ModuleComponent → Component

abbrev pub buildorder : Component → ℕ
buildorder (Component.rpm c) = c.buildorder
buildorder (Component.included c) = c.buildorder

-- A ComponentBuild, as it is created; the batch may be None.
pub record PlannedBuild : Type 0 where
  pub package_name : String
  pub scmurl : String
  pub batch : Option ℕ
  pub ref : Option String
  pub weight : ℕ
  pub buildonly : Bool

-- The component builds of the module build in the session, and the refs in the xmd of the main
-- module.
pub record Plan : Type 0 where
  pub builds : List PlannedBuild
  pub main_refs : Option Refs
