-- ===== src/Lib.antt =====
-- fm-orchestrator, the Module Build Service: the scheduler that builds the RPM components of a
-- module in batches.
--
-- A module build has component builds, each in a batch. Messages of the build system and of the
-- service itself reach the handlers of module_build_service/scheduler/handlers. A handler finds the
-- module build, changes its rows, calls the builder, and hands the next step to the functions of
-- scheduler/batches.py, which submit the components of the current batch and step to the next one,
-- where scheduler/reuse.py first looks for components of an earlier module build that can be used
-- again. All paths are below module_build_service.
--
-- Common, Exec    Shared functions and tests over the native numbers and strings; code that changes
--                 a store and may raise. What was written before a raise stays written.
--                 Exec.Ensures holds the rules for postconditions.
-- Models          common/models.py. Rows: ModuleBuild, ComponentBuild, ModuleBuildTrace, LogMessage
--                 as records of the columns that the scheduler uses. Store: the tables, the clock,
--                 the queue of events.scheduler, the queue of state change messages and those that
--                 were sent, the counters, the calls of the build system, and the handlers that Celery
--                 is asked to run. Component, Module: the
--                 properties and methods, among them current_batch, transition and get_by_tag. An
--                 assignment to a mapped object writes the row with its key and gives the new
--                 object back; a function that changes its module returns it. Table, Keys: what a
--                 write changes. History: how the row of one module build may change. Update: loops over
--                 the rows of a query. Path: the states on the way.
-- Builder         builder/base.py as a record of answers. Koji: recover_orphaned_artifact of
--                 builder/KojiModuleBuilder.py over the answers of a Koji session. TagName:
--                 generate_koji_tag. Laws: what the
--                 scheduler relies on.
-- Reuse           scheduler/reuse.py: get_reusable_module in Source, get_reusable_component in
--                 Component (its tests one function each), the other functions in Actions.
-- Batches         scheduler/batches.py: at_concurrent_component_threshold and the choice of
--                 components in Threshold, start_build_component and continue_batch_build in
--                 Continue, start_next_batch_build in Next.
-- Handlers        scheduler/handlers: build_task_finalize in Components, repos.done in Repos, tagged
--                 in Tags, decision_update in Greenwave, failed and done of modules.py in Modules
--                 (module_failed, module_done). Env: the services they ask. Tasks: the handler for
--                 each message. Lifecycle: the rows of the module builds through each of them.
-- Consumer        scheduler/consumer.py: _map_message and process_message, with what a handler that
--                 raises leaves. The handlers for the states init and wait are arguments.
-- Producer        scheduler/producer.py: cancel_stuck_module_builds, and what it does to a row in
--                 Stuck; process_waiting_module_builds in Waiting, fail_lost_builds and
--                 retrigger_new_repo_on_failure in Lost, process_paused_module_builds in Paused,
--                 delete_old_koji_targets in Targets, cleanup_stale_failed_builds in Cleanup,
--                 sync_koji_build_tags in Tags, poll_greenwave in Gating. Tasks: all of them.
--                 Lifecycle: the rows of the module builds through each of them.
-- Messages        scheduler/parser.py, in Parser, with the regular expression for topics in Topic; the
--                 message that common/messaging.py makes. RoundTrip: what the services publish.
-- Streams         common/models.py, get_stream_version in Version, the last builds in Latest;
--                 web/submit.py, get_prefixed_version in Prefixed. Triples, Bounds, Ordered, Greatest:
--                 proofs. A stream is the list of its code points there.
-- Submission      scheduler/submit.py: merge_included_mmd in Mmd, get_module_srpm_overrides in
--                 Overrides, record_component_builds in Recording. Order, Batches: the batches of the
--                 component builds that it adds.
-- Expansion       common/resolve.py: expand_single_mse_streams in Streams, with the query
--                 get_last_build_in_all_streams of common/models.py, get_compatible_base_module_mmds
--                 in Compatible. Strict, Removal, Offered, Fresh: proofs.
-- Greenwave       scheduler/greenwave.py, in Client, over the replies of the service. Verdict: the
--                 answer of check_gating.
-- Events          scheduler/events.py: Scheduler.run and mbs_event_handler. Drain: what a run leaves.
-- Examples        A module build of two batches on which the theorems are applied.
--
-- Parameters: the answers of Koji, of Greenwave and of the resolvers, SHA-1, the creation of a
-- backend, the hash of a build context, kobo.rpmlib.parse_nvr. RecoverLaws and BackendLaws state what is asked of
-- recover_orphaned_artifact. A component build of another backend is submitted by build_artifact.
--
-- Bounds: start_next_batch_build takes the depth of its recursion, as Python's recursion limit does,
-- and so does record_component_builds for included modules;
-- what happens at the limit is an argument. One more than the number of batches ahead is enough, since
-- each call moves on by a batch. Numbers of rows, batches and times are natural numbers; weights are
-- natural numbers too, since only their order is used. Times are taken from the clock of the store.
--
-- Not modelled: the log, per-build log files and caches; a Celery broker, and the eager tasks of local
-- builds and tests; the init and wait handlers; the update hook that sets time_modified of a changed
-- row where the code does not set it; digits of other scripts than 0 to 9; other sessions that write
-- the same rows. The trace of a component build is not kept. The two parts of the thread pool that
-- matter are the submissions, in sequence, and the exception that is raised again; the number of
-- threads and what they share in the session is not modelled. Handlers.Tasks gives the bodies of the
-- handlers; Consumer decorates them with mbs_event_handler.
pub mod Common
pub mod Exec
pub mod Messages
pub mod Models
pub mod Builder
pub mod Reuse
pub mod Submission
pub mod Streams
pub mod Batches
pub mod Events
pub mod Expansion
pub mod Greenwave
pub mod Handlers
pub mod Consumer
pub mod Producer
pub mod Examples
