-- ===== src/Builder/Koji.antt =====
-- KojiModuleBuilder.recover_orphaned_artifact of module_build_service/builder/KojiModuleBuilder.py,
-- over the answers of a Koji session.
use fm_orchestrator.Common.{
  ℕ, Bool, false, true, Option, none, some, String, List, [], ◌∷◌, ltb, length, if◌then◌else◌,
  string_eq, ◌==◌,
}
use fm_orchestrator.Exec.{Exec, Result, pure, raise, lift, ◌>>=◌, value_error, ◌>>◌}
use fm_orchestrator.Models.{
  KojiState, ModuleBuild, ComponentBuild, World, Call, Event, put_component, add_event, call,
}
use fm_orchestrator.Exec.{modify}

-- A build as Koji describes it.
pub record KojiBuild : Type 0 where
  pub nvr : String
  pub task_id : ℕ

-- What the method asks of Koji and of kobo.rpmlib.parse_nvr.
pub record KojiSession : Type 0 where
  pub module_tag : String
  pub module_build_tag : String
  pub list_tagged : (tag package_name : String) → List KojiBuild
  -- The untagged build of the package whose release ends with the release of the module.
  pub untagged_build : (package_name : String) → Option KojiBuild
  -- The version and the release of an nvr.
  pub parse_nvr : String → Result (String × String)
  -- The calls of Koji under the methods of these names, which may raise.
  pub buildroot_add_artifacts : (nvrs : List (Option String)) (install : Bool) → Result Unit
  pub tag_artifacts : (nvrs : List (Option String)) (dest_tag : Bool) → Result Unit

abbrev pub is_ambiguous : List KojiBuild → Bool
is_ambiguous rv = ltb 1 (length rv)

abbrev pub first_build : List KojiBuild → List KojiBuild → Option KojiBuild → Option KojiBuild
first_build (b ∷ bs) dest untagged = some b
first_build [] (b ∷ bs) untagged = some b
first_build [] [] untagged = untagged

module _ (session : KojiSession) (m : ModuleBuild) where
  abbrev pub fake : String
  fake = "recover_orphaned_artifact: fake message"

  abbrev pub tagged_in : List KojiBuild → String → ComponentBuild → Exec World Unit
  tagged_in [] tag c = pure tt
  tagged_in (b ∷ bs) tag c = add_event (Event.tagged fake tag c.nvr)

  -- Adding the artifact to the build tag, where it is not there.
  abbrev pub tag_recovered : List KojiBuild → ComponentBuild → Exec World Unit
  tag_recovered (b ∷ bs) c = pure tt
  tag_recovered [] c =
      if c.package_name == "module-build-macros"
      then (do
        call (Call.buildroot_add_artifacts (c.nvr ∷ []) c.build_time_only)
        lift (session.buildroot_add_artifacts (c.nvr ∷ []) c.build_time_only))
      else (do
        call (Call.tag_artifacts (c.nvr ∷ []) false)
        lift (session.tag_artifacts (c.nvr ∷ []) false))

  -- The messages and the tags of a recovered component.
  abbrev pub announce :
      List KojiBuild
      → List KojiBuild
      → ComponentBuild
      → ComponentBuild
      → KojiBuild
      → Exec World Unit
  announce build_tagged dest_tagged c c' b = do
    (version, release) ← lift (session.parse_nvr b.nvr)
    add_event (
        Event.build_task_finalize (record {
          msg_id = fake;
          task_id = some b.task_id;
          build_new_state = some KojiState.complete;
          build_name = c.package_name;
          build_version = version;
          build_release = release;
          module_build_id = some m.id;
          state_reason = none;
        }))
    tag_recovered build_tagged c'
    tagged_in build_tagged session.module_build_tag c'
    tagged_in dest_tagged session.module_tag c'

  -- The rest of the method, once a build is found.
  abbrev pub use_build :
      List KojiBuild
      → List KojiBuild
      → ComponentBuild
      → Option KojiBuild
      → Exec World (ComponentBuild × Bool)
  use_build build_tagged dest_tagged c none = pure (c, false)
  use_build build_tagged dest_tagged c (some b) =
      let c' = record c {
        state = some KojiState.complete;
        nvr = some b.nvr;
        task_id = some b.task_id;
        state_reason = some "Found existing build";
      } in
      do modify (put_component c'); announce build_tagged dest_tagged c c' b; pure (c', true)

  unfoldable pub recover_orphaned_artifact : ComponentBuild → Exec World (ComponentBuild × Bool)
  unfolding put_component add_event call
  recover_orphaned_artifact c =
      let build_tagged = session.list_tagged session.module_build_tag c.package_name in
      let dest_tagged =
        if c.build_time_only then [] else session.list_tagged session.module_tag c.package_name in
      if is_ambiguous build_tagged
      then raise value_error
      else if is_ambiguous dest_tagged
      then raise value_error
      else use_build build_tagged dest_tagged c
          (first_build build_tagged dest_tagged (session.untagged_build c.package_name))
