-- ===== src/Batches/Bound/Submit.antt =====
-- The submission of the chosen components does not raise the number of builds that run.
use fm_orchestrator.Common.{◌≤◌, ◌≡◌, ◌≢◌, true, some, String, List, [], ◌∷◌, All, arith}
use fm_orchestrator.Models.{ComponentBuild, World, is_building, put_component, put_component_row}
use fm_orchestrator.Models.Table.{
  find_row, AreRows, HasDistinctIds, AreRows-put, count-put, count-put-le,
}
use fm_orchestrator.Builder.{Builder, BuildReply, Submission, submitted, refused}
use fm_orchestrator.Batches.{
  is_active, active_count, with_reply, with_failure, no_task_reason, fail_component,
  finish_submission, start_build_component, submit_all,
}

module _ (builder : Builder) where
  fail-active_count :
      (c : ComponentBuild) (reason : String) (w : World)
      → active_count (fail_component builder c reason w).1 ≤ active_count w
  unfolding put_component
  fail-active_count c reason w =
      ground (arith, count-put-le is_active (with_failure c reason) w.components)

  reply-active_count :
      (c : ComponentBuild) (r : BuildReply) (w : World)
      → find_row c.id w.components ≡ some c
      → is_building c ≡ true
      → active_count (put_component (with_reply c r) w) ≤ active_count w
  unfolding put_component
  reply-active_count c r w row b =
      ground (arith, count-put is_active (with_reply c r) c w.components row)

  finish-active_count :
      (c : ComponentBuild) (s : Submission) (w : World)
      → find_row c.id w.components ≡ some c
      → is_building c ≡ true
      → active_count (finish_submission builder c s w).1 ≤ active_count w
  finish-active_count c (refused text) w row b = fail-active_count c _ w
  finish-active_count c (submitted r) w row b = ground (
    arith,
    reply-active_count c r w row b,
    fail-active_count (with_reply c r) (no_task_reason (with_reply c r))
        (put_component (with_reply c r) w),
  )

  start_build_component-active_count :
      (c : ComponentBuild) (w : World)
      → find_row c.id w.components ≡ some c
      → is_building c ≡ true
      → active_count (start_build_component builder c w).1 ≤ active_count w
  unfolding start_build_component
  start_build_component-active_count c w row b = finish-active_count c _ _ row b

  finish-AreRows :
      (c : ComponentBuild) (s : Submission) (cs : List ComponentBuild) (w : World)
      → All (λ d. d.id ≢ c.id) cs
      → AreRows cs w.components
      → AreRows cs (finish_submission builder c s w).1.components
  unfolding put_component
  finish-AreRows c (refused text) cs w ne rows = AreRows-put _ cs w.components ne rows
  finish-AreRows c (submitted r) cs w ne rows =
      let first = AreRows-put (with_reply c r) cs w.components ne rows in
      ground (
        arith,
        AreRows-put (with_failure (with_reply c r) (no_task_reason (with_reply c r))) cs
            (put_component_row (with_reply c r) w.components) ne first,
      )

  start_build_component-AreRows :
      (c : ComponentBuild) (cs : List ComponentBuild) (w : World)
      → All (λ d. d.id ≢ c.id) cs
      → AreRows cs w.components
      → AreRows cs (start_build_component builder c w).1.components
  unfolding start_build_component
  start_build_component-AreRows c cs w ne rows = finish-AreRows c _ cs _ ne rows

  -- Components that are rows in the BUILDING state are submitted without raising the number.
  pub submit_all-active_count :
      (cs : List ComponentBuild) (w : World)
      → AreRows cs w.components
      → All (λ c. is_building c ≡ true) cs
      → HasDistinctIds cs
      → active_count (submit_all builder cs w).1 ≤ active_count w
  unfolding submit_all
  submit_all-active_count [] w rows b dist = omega arith
  submit_all-active_count (c ∷ cs) w rows b dist = omega (
    arith,
    start_build_component-active_count c w rows.0 b.0,
    submit_all-active_count cs (start_build_component builder c w).1
        (start_build_component-AreRows c cs w dist.0 rows.1) b.1 dist.1,
  )
