-- ===== src/Submission/Recording.antt =====
-- `record_component_builds` of module_build_service/scheduler/submit.py.
use fm_orchestrator.Common.{
  ℕ, zero, suc, ◌+◌, Bool, not, ◌||◌, any, Option, none, some, String, List, [], ◌∷◌, ◌++◌, map,
  filter, first, leb, is_nonempty, if◌then◌else◌, string_eq, nat_eq, option_eq, ◌==◌, ◌^^◌,
}
use fm_orchestrator.Exec.{
  Exec, Result, type_error, key_error, recursion_error, external, pure, raise, lift, gets, modify,
  ◌>>=◌, ◌>>◌,
}
use fm_orchestrator.Submission.Mmd.{
  RpmComponent, Refs, ModuleMd, Component, buildorder, PlannedBuild, Plan, find_ref,
  merge_included_mmd,
}
use fm_orchestrator.Submission.Overrides.{Overrides, find_override}

-- What the function asks for: the custom SRPMs of the module build, the weight of a package, and
-- an included module by its URL, fetched and formatted.
pub record Sources : Type 0 where
  pub srpm_overrides : Result Overrides
  pub weight : String → ℕ
  pub fetch : String → Result ModuleMd

-- all_components.sort(key=lambda x: x.get_buildorder()), which is stable.
unfoldable pub insert_by_order : Component → List Component → List Component
insert_by_order c [] = c ∷ []
insert_by_order c (d ∷ ds) =
    let rest = insert_by_order c ds in
    if leb (buildorder c) (buildorder d) then c ∷ d ∷ ds else d ∷ rest

unfoldable pub sorted_by_order : List Component → List Component
unfolding insert_by_order
sorted_by_order [] = []
sorted_by_order (c ∷ cs) = insert_by_order c (sorted_by_order cs)

abbrev pub all_components : ModuleMd → List Component
all_components mmd = map Component.rpm mmd.rpms ++ map Component.included mmd.modules

-- The check for components that are in both documents.
abbrev pub has_duplicates : List RpmComponent → List RpmComponent → Bool
has_duplicates main rpms = any (λ c. any (λ d. d.name == c.name) rpms) main

-- The document that the call merges into: the given one, or the main one, of which only the names
-- of the RPM components are needed besides the refs, which stand in the plan.
abbrev pub merge_into_main : Option (List RpmComponent) → ModuleMd → Exec Plan Unit
merge_into_main none mmd = pure tt
merge_into_main (some main) mmd =
    if has_duplicates main mmd.rpms
    then raise (external "UnprocessableEntity")
    else modify (λ p. record p { main_refs = merge_included_mmd p.main_refs mmd.refs })

abbrev pub main_rpms : Option (List RpmComponent) → ModuleMd → List RpmComponent
main_rpms none mmd = mmd.rpms
main_rpms (some main) mmd = main

-- mmd.get_xmd()["mbs"]["rpms"] for the document of the call.
abbrev pub refs_of : Option (List RpmComponent) → ModuleMd → Plan → Option Refs
refs_of none mmd p = p.main_refs
refs_of (some main) mmd p = mmd.refs

abbrev pub ref_url : RpmComponent → Option (Option String) → Exec Plan (Option String × String)
ref_url c none = raise key_error
ref_url c (some none) = raise type_error
ref_url c (some (some ref)) = pure (some ref, c.repository ^^ "?#" ^^ ref)

abbrev pub recorded_ref : RpmComponent → Option Refs → Exec Plan (Option String × String)
recorded_ref c none = raise key_error
recorded_ref c (some refs) = ref_url c (find_ref c.name refs)

-- component_ref and full_url of an RPM component.
abbrev pub ref_and_url :
    RpmComponent → Option String → Option Refs → Exec Plan (Option String × String)
ref_and_url c (some source) refs = pure (none, source)
ref_and_url c none refs = recorded_ref c refs

-- models.ComponentBuild.from_component_name for the module build
abbrev pub existing_build : String → Plan → Option PlannedBuild
existing_build name p = first (filter (λ b. b.package_name == name) p.builds)

module _ (sources : Sources) where
  abbrev pub add_build :
      RpmComponent → Option ℕ → Option String × String → Option PlannedBuild → Exec Plan Unit
  add_build c batch (ref, url) (some b) =
      if not (b.batch == batch) || not (b.scmurl == url) || not (b.ref == ref)
      then raise (external "ValidationError")
      else pure tt
  add_build c batch (ref, url) none = modify (λ p. record p {
    builds =
        p.builds
        ++ record {
          package_name = c.name;
          scmurl = url;
          batch = batch;
          ref = ref;
          weight = sources.weight c.name;
          buildonly = c.buildonly;
        }
          ∷ [];
  })

  unfoldable pub record_rpm :
      Overrides → Option (List RpmComponent) → ModuleMd → Option ℕ → RpmComponent → Exec Plan Unit
  record_rpm overrides main mmd batch c = do
    refs ← gets (refs_of main mmd)
    pair ← ref_and_url c (find_override c.name overrides) refs
    existing ← gets (existing_build c.name)
    add_build c batch pair existing

  -- batch += 1 where the build order differs from the previous one; None cannot be increased.
  abbrev pub increased : Option ℕ → Exec Plan (Option ℕ)
  increased none = raise type_error
  increased (some b) = pure (some (b + 1))

  abbrev pub next_batch : Option ℕ → ℕ → Option ℕ → Exec Plan (Option ℕ)
  next_batch previous order batch = if previous == some order then pure batch else increased batch

  -- The call for an included module: the document, the batch, the previous build order, and the
  -- RPM components of the main document.
  abbrev pub Again : Type 0
  Again = ModuleMd → Option ℕ → Option ℕ → Option (List RpmComponent) → Exec Plan (Option ℕ)

  module _ (again : Again) (overrides : Overrides) (main : Option (List RpmComponent))
      (mmd : ModuleMd) where
    -- The batch that the loop goes on with behind a component.
    abbrev pub record_one : Option ℕ → Component → Exec Plan (Option ℕ)
    record_one batch (Component.rpm c) = do record_rpm overrides main mmd batch c; pure batch
    record_one batch (Component.included m) = do
      included_mmd ← lift (sources.fetch (m.repository ^^ "?#" ^^ m.ref))
      again included_mmd batch (some m.buildorder) (some (main_rpms main mmd))

    -- The loop over the components, with the batch and the previous build order.
    unfoldable pub record_all : List Component → Option ℕ → Option ℕ → Exec Plan (Option ℕ)
    unfolding record_rpm
    record_all [] batch previous = pure batch
    record_all (c ∷ cs) batch previous = do
      current ← next_batch previous (buildorder c) batch
      after ← record_one current c
      record_all cs after (some (buildorder c))

  -- The number bounds the depth of the recursion, as Python's recursion limit does.
  unfoldable pub record_component_builds : ℕ → Again
  unfolding record_all sorted_by_order merge_included_mmd
  record_component_builds zero mmd batch previous main = raise recursion_error
  record_component_builds (suc depth) mmd batch previous main = do
    merge_into_main main mmd
    if is_nonempty (all_components mmd)
        then (do
          overrides ← lift sources.srpm_overrides
          record_all (record_component_builds depth) overrides main mmd
              (sorted_by_order (all_components mmd)) batch previous)
        else pure none
