-- ===== src/Handlers/Lifecycle/Tags.antt =====
-- The rows of the module builds through `tagged` of
-- module_build_service/scheduler/handlers/tags.py.
use fm_orchestrator.Common.{refl, ℕ, not, ◌&&◌, Option, none, some, String, any, inl, arith}
use fm_orchestrator.Exec.{modify, ◌>>=◌, ◌>>◌}
use fm_orchestrator.Exec.Ensures.{Ensures-if, Ensures-bind}
use fm_orchestrator.Models.{
  ModuleBuild, ComponentBuild, World, Call, component_builds, current_batch, up_to_current_batch,
  is_completed, is_tagged, is_unbuilt, put_component, put_module, commit, call, get_by_tag,
}
use fm_orchestrator.Models.History.{
  EdgeRelation, Follows, Tracks, Tracks-kept, Tracks-keep, put-Tracks,
}
use fm_orchestrator.Models.Keys.{HasDistinctKeys, Found, nothing, one_row, many, get_by_tag-Found}
use fm_orchestrator.Builder.{Builder, is_koji_or_test}
use fm_orchestrator.Handlers.{
  Services, create_from_module, is_new_repo_generating, with_new_repo, regenerate, all_tagged,
  tagged_component, tag_component, tag_module, tagged, from_component_nvr,
}
use fm_orchestrator.Handlers.Lifecycle.{BackendLaws, Ends, commit-Ends, event-Ends, create-Tracks}

module _ (services : Services) (laws : BackendLaws services) (E : EdgeRelation) (i : ℕ)
    (m : ModuleBuild) where
  new_repo-Ends :
      (n : ModuleBuild) (tag : String) (w : World)
      → Tracks E i m n w
      → Ends E i m
          (call (Call.new_repo tag) >> modify (put_module (with_new_repo services n tag)))
          w
  unfolding call put_module
  new_repo-Ends n tag w h = record {
    holds =
        (put-Tracks E i m n (with_new_repo services n tag) w _ h
          (inl (record { same_id = refl; same_state = refl; same_trace = refl })) refl).follows;
  }

  regenerate-Ends :
      (n : ModuleBuild) (builder : Builder) (w : World)
      → Tracks E i m n w
      → Ends E i m (regenerate services n builder) w
  regenerate-Ends n builder w h =
      Ensures-if (any is_unbuilt (component_builds n w)) _ _ w
        (λ _.
          Ensures-if (is_new_repo_generating services n) _ _ w (λ _. record { holds = h.follows })
            (λ _. new_repo-Ends n builder.module_build_tag w h))
        (λ _. event-Ends E i m _ w h.follows)

  all_tagged-Ends :
      (n : ModuleBuild) (w : World) → Tracks E i m n w → Ends E i m (all_tagged services n) w
  unfolding all_tagged
  all_tagged-Ends n w h =
      Ensures-bind (create_from_module services n) _ w (create-Tracks E i m services laws n n w h)
        (λ builder t k.
          Ensures-bind (regenerate services n builder) (λ _. commit) t
            (regenerate-Ends n builder t k.1) (λ _ u l. commit-Ends E i m u l))

  tagged_component-Ends :
      (n : ModuleBuild) (w : World) → Tracks E i m n w → Ends E i m (tagged_component services n) w
  unfolding tagged_component current_batch up_to_current_batch
  tagged_component-Ends n w h =
      Ensures-bind (current_batch n none) _ w
        (Tracks-kept E i m n (current_batch n none) w (ground arith) h)
        (λ current t k.
          Ensures-if (any is_unbuilt current) _ _ t (λ _. record { holds = k.follows })
            (λ _.
              Ensures-bind (up_to_current_batch n none) _ t
                (Tracks-kept E i m n (up_to_current_batch n none) t (ground arith) k)
                (λ past u l.
                  Ensures-if (any (λ c. is_completed c && not (is_tagged c)) past) _ _ u
                    (λ _. record { holds = l.follows }) (λ _. all_tagged-Ends n u l))))

  tag_component-Ends :
      (tag_name : String) (n : ModuleBuild) (found : Option ComponentBuild) (w : World)
      → Tracks E i m n w
      → Ends E i m (tag_component services tag_name n found) w
  unfolding put_component commit
  tag_component-Ends tag_name n none w h = record { holds = h.follows }
  tag_component-Ends tag_name n (some c) w h =
      tagged_component-Ends n _ (Tracks-keep E i m n w _ refl h)

  Found-Ends :
      (tag_name : String) (build_nvr : Option String) (w : World)
      → Follows E i m w
      → Found tag_name w
      → Ends E i m (get_by_tag tag_name >>= tag_module services tag_name build_nvr) w
  Found-Ends tag_name build_nvr w h (nothing e) = rw e (record { holds = h })
  Found-Ends tag_name build_nvr w h (many e) = rw e (record { holds = h })
  Found-Ends tag_name build_nvr w h (one_row n e s row) = rw e (
      tag_component-Ends tag_name n (from_component_nvr build_nvr n.id w) w
        (record { follows = h; is_row = row }))

  pub tagged-Ends :
      (tag_name : String) (build_nvr : Option String) (w : World)
      → HasDistinctKeys w.modules
      → Follows E i m w
      → Ends E i m (tagged services tag_name build_nvr) w
  unfolding tagged
  tagged-Ends tag_name build_nvr w keys h =
      Ensures-if (is_koji_or_test services.config.system) _ _ w
        (λ _. Found-Ends tag_name build_nvr w h (get_by_tag-Found tag_name w keys))
        (λ _. record { holds = h })
