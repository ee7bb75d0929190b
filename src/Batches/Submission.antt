-- ===== src/Batches/Submission.antt =====
-- `start_build_component` of module_build_service/scheduler/batches.py: the result and the rows
-- of one submission.
use fm_orchestrator.Common.{
  ◌≡◌, refl, List, [], ◌∷◌, arith, ℕ, subst, some, Bool, true, not, ◌&&◌, nat_eq, nat_beq_iff,
  if◌then◌else◌,
}
use fm_orchestrator.Exec.{raised, type_error}
use fm_orchestrator.Models.{
  KojiState, ComponentBuild, World, put_component, put_component_row, call, state_is_building,
}
use fm_orchestrator.Models.Table.{find_row, find_row-put_self}
use fm_orchestrator.Builder.{Builder, BuildReply, Submission, is_truthy_id, submitted, refused}
use fm_orchestrator.Batches.{
  with_reply, with_failure, refused_reason, no_task_reason, finish_submission,
  start_build_component,
}

put-put :
    (c d : ComponentBuild) (ds : List ComponentBuild)
    → c.id ≡ d.id
    → put_component_row d (put_component_row c ds) ≡ put_component_row d ds
unfolding put_component_row
put-put c d [] h = refl
put-put c d (e ∷ ds) h =
    ground
      (arith, nat_beq_iff e.id c.id, nat_beq_iff e.id d.id, nat_beq_iff c.id d.id, put-put c d ds)

find_row_written :
    (i : ℕ) (d c : ComponentBuild) (ds : List ComponentBuild)
    → d.id ≡ i
    → find_row i ds ≡ some c
    → find_row i (put_component_row d ds) ≡ some d
find_row_written i d c ds e row =
    subst (λ j. find_row j ds ≡ some c → find_row j (put_component_row d ds) ≡ some d) e
      (find_row-put_self d c ds) row

-- Whether the submission ends in the branch that fails the module build.
abbrev pub has_no_task : BuildReply → Bool
has_no_task r = not (is_truthy_id r.task_id) && state_is_building r.state

-- The last value that is written to the row.
abbrev last_write : ComponentBuild → Submission → ComponentBuild
last_write c (refused text) = with_failure c (refused_reason c text)
last_write c (submitted r) =
    let c' = with_reply c r in if has_no_task r then with_failure c' (no_task_reason c') else c'

last_write-id : (c : ComponentBuild) (s : Submission) → (last_write c s).id ≡ c.id
last_write-id c (refused text) = refl
last_write-id c (submitted r) = ground arith

module _ (builder : Builder) where
  finish-components :
      (c : ComponentBuild) (s : Submission) (w : World)
      → (finish_submission builder c s w).1.components
        ≡ put_component_row (last_write c s) w.components
  unfolding put_component
  finish-components c (refused text) w = refl
  finish-components c (submitted r) w =
      let c' = with_reply c r in
      ground (arith, put-put c' (with_failure c' (no_task_reason c')) w.components)

  abbrev answer : ComponentBuild → Submission
  answer c = builder.build_artifact c.package_name c.scmurl

  -- The submission does not give a running task: the builder raises, or it answers with a build
  -- in the BUILDING state and no task id.
  abbrev pub IsRejected : Submission → Type 0
  IsRejected (refused text) = Unit
  IsRejected (submitted r) = has_no_task r ≡ true

  finish_rejected :
      (c : ComponentBuild) (s : Submission) (w : World)
      → IsRejected s
      → ((finish_submission builder c s w).0 ≡ raised type_error)
        × ((last_write c s).state ≡ some KojiState.failed)
        × ((finish_submission builder c s w).1.modules ≡ w.modules)
        × ((finish_submission builder c s w).1.out_queue ≡ w.out_queue)
        × ((finish_submission builder c s w).1.failures ≡ w.failures)
  unfolding put_component
  finish_rejected c (refused text) w h = (refl, refl, refl, refl, refl)
  finish_rejected c (submitted r) w h = ground arith

  -- A submission that gives no running task writes the FAILED state to the row of the component
  -- and then raises a TypeError. The rows of the module builds, the queue of state change
  -- messages and the counter of failed builds stay as they were: the module build does not fail.
  pub start_build_component_rejected :
      (c : ComponentBuild) (w : World)
      → IsRejected (builder.build_artifact c.package_name c.scmurl)
      → find_row c.id w.components ≡ some c
      → (let after = start_build_component builder c w in
          (after.0 ≡ raised type_error)
          × ((d : ComponentBuild) × (find_row c.id after.1.components ≡ some d)
              × (d.state ≡ some KojiState.failed))
          × (after.1.modules ≡ w.modules)
          × (after.1.out_queue ≡ w.out_queue)
          × (after.1.failures ≡ w.failures))
  unfolding start_build_component call
  start_build_component_rejected c w h row =
      let facts = finish_rejected c (answer c) _ h in
      let d = last_write c (answer c) in
      (
        facts.0,
        (
          d,
          rw finish-components
              (find_row_written c.id d c w.components (last_write-id c (answer c)) row),
          facts.1,
        ),
        facts.2,
        facts.3,
        facts.4,
      )
