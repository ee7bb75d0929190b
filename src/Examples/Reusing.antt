-- ===== src/Examples/Reusing.antt =====
-- The theorem on a complete reuse applied: both components come from the earlier module build.
use fm_orchestrator.Common.{◌≡◌, refl, arith, true, some}
use fm_orchestrator.Exec.{ok}
use fm_orchestrator.Models.{ModuleBuild}
use fm_orchestrator.Reuse.{attempt_to_reuse_all_components}
use fm_orchestrator.Reuse.All.{IsReusedAs, attempt_to_reuse_all_components-true}
use fm_orchestrator.Examples.Data.{new_module, store, reuse_env}

abbrev reusing_module : ModuleBuild
reusing_module = record new_module { reused_module_id = some 1; batch = 3 }

reused_all :
    (attempt_to_reuse_all_components reuse_env new_module store).0 ≡ ok (reusing_module, true)
unfolding attempt_to_reuse_all_components
reused_all = refl

attempt_to_reuse_all_components-true_example :
    IsReusedAs reuse_env new_module store
      (attempt_to_reuse_all_components reuse_env new_module store).1
attempt_to_reuse_all_components-true_example =
    attempt_to_reuse_all_components-true reuse_env new_module reusing_module store
      (
        (omega arith, (omega arith, (omega arith, tt))),
        ((omega arith, (omega arith, tt)), ((omega arith, tt), (tt, tt))),
      )
      reused_all
