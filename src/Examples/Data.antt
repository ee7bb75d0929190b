-- ===== src/Examples/Data.antt =====
-- A module build of two batches, an earlier build of the same module, and a Koji backend without
-- tagged builds, on which the theorems are applied.
use fm_orchestrator.Common.{ℕ, true, false, Option, none, some, String, [], ◌∷◌}
use fm_orchestrator.Exec.{ok}
use fm_orchestrator.Models.{
  BuildState, KojiState, RebuildStrategy, Mmd, ModuleBuild, ComponentBuild, Tables, World,
}
use fm_orchestrator.Builder.{System, Config, Builder, BuildReply, Submission}
use fm_orchestrator.Builder.Koji.{KojiSession, recover_orphaned_artifact}
use fm_orchestrator.Reuse.{ReuseEnv}
use fm_orchestrator.Handlers.{Services}

abbrev pub mmd : Mmd
mmd = record {
  rpm_macros = none;
  buildrequires = ("platform", "f30") ∷ [];
  rpm_arches = ("bash", "x86_64" ∷ []) ∷ ("tar", "x86_64" ∷ []) ∷ [];
  rpm_filters = [];
}

abbrev pub new_module : ModuleBuild
new_module = record {
  id = 2;
  name = "testmodule";
  stream = "master";
  version = 2;
  context = "c1";
  build_context = some "h";
  build_context_no_bms = none;
  scmurl = some "https://src/testmodule";
  state = BuildState.build;
  state_reason = none;
  mmd = mmd;
  koji_tag = some "module-testmodule";
  scratch = false;
  time_modified = 10;
  time_completed = none;
  new_repo_task_id = none;
  rebuild_strategy = RebuildStrategy.changed_and_after;
  reused_module_id = none;
  batch = 2;
  trace = record { state_time = 10; state = BuildState.build; state_reason = none } ∷ [];
}

abbrev pub old_module : ModuleBuild
old_module = record new_module {
  id = 1;
  version = 1;
  state = BuildState.ready;
  koji_tag = some "module-old";
  time_completed = some 5;
  trace = record { state_time = 5; state = BuildState.ready; state_reason = none } ∷ [];
}

abbrev pub component : ℕ → String → ℕ → ℕ → Option KojiState → ComponentBuild
component id name batch module_id state = record {
  id = id;
  package_name = name;
  scmurl = "https://src/rpms";
  task_id = none;
  ref = some "abc";
  state = state;
  state_reason = none;
  nvr = none;
  tagged = false;
  tagged_in_final = false;
  build_time_only = false;
  buildonly = false;
  batch = batch;
  module_id = module_id;
  reused_component_id = none;
  weight = 1;
}

abbrev pub old_bash : ComponentBuild
old_bash = component 1 "bash" 2 1 (some KojiState.complete)

abbrev pub old_tar : ComponentBuild
old_tar = component 2 "tar" 3 1 (some KojiState.complete)

abbrev pub bash : ComponentBuild
bash = component 3 "bash" 2 2 none

abbrev pub tar : ComponentBuild
tar = component 4 "tar" 3 2 none

abbrev tables : Tables
tables = record {
  modules = old_module ∷ new_module ∷ [];
  components = old_bash ∷ old_tar ∷ bash ∷ tar ∷ [];
  log_messages = [];
}

abbrev pub store : World
store = record {
  modules = tables.modules;
  components = tables.components;
  log_messages = tables.log_messages;
  saved = tables;
  now = 20;
  events = [];
  out_queue = [];
  sent = [];
  successes = 0;
  failures = [];
  calls = [];
  broker = [];
}

abbrev pub config : Config
config = record { system = System.koji; num_concurrent_builds = 1 }

-- No build is tagged, and none is found by its release.
abbrev pub session : KojiSession
session = record {
  module_tag = "module-testmodule";
  module_build_tag = "module-testmodule-build";
  list_tagged = λ tag package_name. [];
  untagged_build = λ package_name. none;
  parse_nvr = λ nvr. ok ("1", "1");
  buildroot_add_artifacts = λ nvrs install. ok tt;
  tag_artifacts = λ nvrs dest_tag. ok tt;
}

abbrev pub build_reply : BuildReply
build_reply = record {
  task_id = some 7;
  state = some KojiState.building;
  state_reason = some "Submitted";
  nvr = none;
}

-- The backend with a given answer to a submission.
abbrev pub backend : Submission → Builder
backend answer = record {
  module_build_tag = "module-testmodule-build";
  build_artifact = λ artifact_name source. answer;
  recover_orphaned_artifact = recover_orphaned_artifact session new_module;
  list_tasks_for_components = λ cs. none;
  buildroot_ready = λ nvrs. true;
  untag_artifacts = λ nvrs. ok tt;
}

abbrev pub accepting : Builder
accepting = backend (Submission.submitted build_reply)

abbrev pub refusing : Builder
refusing = backend (Submission.refused "no such source")

abbrev pub reuse_env : ReuseEnv
reuse_env = record {
  system = System.koji;
  base_modules =
      λ m. record { name = "platform"; stream = "f30"; koji_tag_with_modules = false } ∷ [];
  koji_modules = λ m b. [];
  context_hash = λ requires. "h";
  parse_nvr = λ nvr. ok (record { name = "bash"; version = "1"; release = "1" });
}

abbrev pub services : Services
services = record {
  config = config;
  reuse = reuse_env;
  create_builder = λ m. ok accepting;
  list_build_rpms = λ nvr. [];
  new_repo_task = λ tag. 9;
  is_task_active = λ id. false;
  greenwave = none;
  greenwave_decision_context = "osci";
  module_build_service_id = λ nvr. some 2;
  recursion_limit = 10;
}

-- The module build is done and waits for its gate.
abbrev pub done_store : World
done_store = record store {
  modules = old_module ∷ record new_module { state = BuildState.done } ∷ [];
}

abbrev pub built : ComponentBuild → ComponentBuild
built c = record c { state = some KojiState.complete; tagged = true; tagged_in_final = true }

-- Everything is built in the last batch.
abbrev pub last_batch : ModuleBuild
last_batch = record new_module { batch = 3 }

abbrev pub built_store : World
built_store = record store {
  modules = old_module ∷ last_batch ∷ [];
  components = old_bash ∷ old_tar ∷ built bash ∷ built tar ∷ [];
}

-- The row after the last regeneration of the repository.
abbrev pub done_module : ModuleBuild
done_module = record last_batch {
  state = BuildState.done;
  time_modified = 20;
  time_completed = some 20;
  trace =
      record { state_time = 10; state = BuildState.build; state_reason = none }
      ∷ record { state_time = 20; state = BuildState.done; state_reason = none }
      ∷ [];
}
