-- ===== src/Builder/Laws.antt =====
-- What the scheduler relies on in a backend's `recover_orphaned_artifact`
-- (module_build_service/builder/base.py), and the Koji backend
-- (module_build_service/builder/KojiModuleBuilder.py).
use fm_orchestrator.Common.{
  ◌≡◌, refl, Bool, true, false, ◌⊎◌, inl, inr, Option, none, some, String, List, [], ◌∷◌, string_eq,
  if◌then◌else◌, ◌==◌,
}
use fm_orchestrator.Exec.{Result, lift}
use fm_orchestrator.Exec.Ensures.{
  Ensures, Ensures-always, Ensures-bind, Ensures-if, Ensures-lift, Ensures-weaken,
}
use fm_orchestrator.Models.{
  KojiState, ModuleBuild, ComponentBuild, World, is_completed, put_component_row, put_component,
  add_event, call,
}
use fm_orchestrator.Builder.{Builder, Submission}
use fm_orchestrator.Builder.Koji.{
  KojiSession, KojiBuild, recover_orphaned_artifact, use_build, announce, tag_recovered, tagged_in,
  is_ambiguous, first_build,
}

-- Either nothing was found and no row changed, or the component is complete and its row written.
abbrev pub Recovered : ComponentBuild → World → ComponentBuild × Bool → World → Type 0
Recovered c w (c', found) w' =
    (c' ≡ c) × (w'.components ≡ w.components)
    ⊎ (c'.id ≡ c.id)
      × (is_completed c' ≡ true)
      × (w'.components ≡ put_component_row c' w.components)

-- Where the method raises, no row changed, or only that of the component, which is then complete.
abbrev pub Attempted : ComponentBuild → World → World → Type 0
Attempted c w w' =
    (w'.components ≡ w.components)
    ⊎ (c' : ComponentBuild) × (c'.id ≡ c.id)
      × (is_completed c' ≡ true)
      × (w'.components ≡ put_component_row c' w.components)

pub record RecoverLaws (builder : Builder) : Type 0 where
  pub recovers :
      (c : ComponentBuild) (w : World)
      → Ensures (Recovered c w) (Attempted c w) (builder.recover_orphaned_artifact c w)
  pub keeps_modules :
      (c : ComponentBuild) (w : World)
      → (builder.recover_orphaned_artifact c w).1.modules ≡ w.modules

module _ (session : KojiSession) (m : ModuleBuild) where
  -- A part of the method that leaves the rows as they are in `w`.
  abbrev HasRowsOf : World → World → Type 0
  HasRowsOf w t = (t.components ≡ w.components) × (t.modules ≡ w.modules)

  tag_recovered-HasRowsOf :
      (w : World) (bs : List KojiBuild) (c : ComponentBuild) (t : World)
      → HasRowsOf w t
      → Ensures (λ _. HasRowsOf w) (HasRowsOf w) (tag_recovered session m bs c t)
  unfolding call
  tag_recovered-HasRowsOf w (b ∷ bs) c t h = record { holds = h }
  tag_recovered-HasRowsOf w [] c t h =
      Ensures-if (c.package_name == "module-build-macros") _ _ t
        (λ _.
          Ensures-lift (session.buildroot_add_artifacts (c.nvr ∷ []) c.build_time_only) _ (λ _ _. h)
            h)
        (λ _. Ensures-lift (session.tag_artifacts (c.nvr ∷ []) false) _ (λ _ _. h) h)

  tagged_in-HasRowsOf :
      (w : World) (bs : List KojiBuild) (tag : String) (c : ComponentBuild) (t : World)
      → HasRowsOf w t
      → Ensures (λ _. HasRowsOf w) (HasRowsOf w) (tagged_in session m bs tag c t)
  unfolding add_event
  tagged_in-HasRowsOf w [] tag c t h = record { holds = h }
  tagged_in-HasRowsOf w (b ∷ bs) tag c t h = record { holds = h }

  announce-HasRowsOf :
      (bs ds : List KojiBuild) (c c' : ComponentBuild) (b : KojiBuild) (w : World)
      → Ensures (λ _. HasRowsOf w) (HasRowsOf w) (announce session m bs ds c c' b w)
  unfolding add_event
  announce-HasRowsOf bs ds c c' b w =
      Ensures-bind {P = λ _. HasRowsOf w} (lift (session.parse_nvr b.nvr)) _ w
        (Ensures-lift (session.parse_nvr b.nvr) w (λ _ _. (refl, refl)) (refl, refl))
        (λ (version, release) t h.
          Ensures-bind {P = λ _. HasRowsOf w} (tag_recovered session m bs c') _ _
            (tag_recovered-HasRowsOf w bs c' _ h)
            (λ _ u k.
              Ensures-bind {P = λ _. HasRowsOf w}
                (tagged_in session m bs session.module_build_tag c') _ u
                (tagged_in-HasRowsOf w bs session.module_build_tag c' u k)
                (λ _ v l. tagged_in-HasRowsOf w ds session.module_tag c' v l)))

  -- What is found, with the rows of the module builds.
  abbrev Uses : ComponentBuild → World → ComponentBuild × Bool → World → Type 0
  Uses c w found w' = Recovered c w found w' × (w'.modules ≡ w.modules)

  abbrev Tries : ComponentBuild → World → World → Type 0
  Tries c w w' = Attempted c w w' × (w'.modules ≡ w.modules)

  use_build-Uses :
      (bs ds : List KojiBuild) (c : ComponentBuild) (found : Option KojiBuild) (w : World)
      → Ensures (Uses c w) (Tries c w) (use_build session m bs ds c found w)
  unfolding put_component
  use_build-Uses bs ds c none w = record { holds = (inl (refl, refl), refl) }
  use_build-Uses bs ds c (some b) w =
      let c' = record c {
        state = some KojiState.complete;
        nvr = some b.nvr;
        task_id = some b.task_id;
        state_reason = some "Found existing build";
      } in
      let written = put_component c' w in
      Ensures-bind (announce session m bs ds c c' b) _ written
        (Ensures-weaken {Q = λ _. HasRowsOf written} {F = Tries c w} _
          (announce-HasRowsOf bs ds c c' b written) (λ _ _ h. h)
          (λ t h. (inr (c', refl, refl, h.0), h.1)))
        (λ _ t h. record { holds = (inr (refl, refl, h.0), h.1) })

  recover_orphaned_artifact-Uses :
      (c : ComponentBuild) (w : World)
      → Ensures (Uses c w) (Tries c w) (recover_orphaned_artifact session m c w)
  unfolding recover_orphaned_artifact
  recover_orphaned_artifact-Uses c w =
      let build_tagged = session.list_tagged session.module_build_tag c.package_name in
      let dest_tagged =
        if c.build_time_only then [] else session.list_tagged session.module_tag c.package_name in
      Ensures-if (is_ambiguous build_tagged) _ _ w (λ _. record { holds = (inl refl, refl) })
        (λ _.
          Ensures-if (is_ambiguous dest_tagged) _ _ w (λ _. record { holds = (inl refl, refl) })
            (λ _.
              use_build-Uses build_tagged dest_tagged c
                (first_build build_tagged dest_tagged (session.untagged_build c.package_name)) w))

  -- The Koji backend keeps the first rule of recover_orphaned_artifact. Where it returns, it
  -- found nothing and changed no row of the component builds, or it found a build and wrote the
  -- row of that one component, which is then complete. Where it raises, no row of them changed,
  -- or only that of the component, which is then complete: the row is written before the artifact
  -- is tagged.
  pub recover_orphaned_artifact-Recovered :
      (c : ComponentBuild) (w : World)
      → Ensures (Recovered c w) (Attempted c w) (recover_orphaned_artifact session m c w)
  recover_orphaned_artifact-Recovered c w =
      Ensures-weaken (recover_orphaned_artifact session m c w) (recover_orphaned_artifact-Uses c w)
        (λ _ _ h. h.0) (λ _ h. h.0)

  pub recover_orphaned_artifact-modules :
      (c : ComponentBuild) (w : World)
      → (recover_orphaned_artifact session m c w).1.modules ≡ w.modules
  recover_orphaned_artifact-modules c w =
      Ensures-always (λ t. t.modules ≡ w.modules) _
        (Ensures-weaken (recover_orphaned_artifact session m c w)
          (recover_orphaned_artifact-Uses c w) (λ _ _ h. h.1) (λ _ h. h.1))

  -- A Koji session as a backend that keeps the laws, whatever its other answers are.
  pub koji_RecoverLaws :
      (build_artifact : String → String → Submission)
      (tasks : List ComponentBuild → Option (List String))
      (buildroot_ready : List (Option String) → Bool)
      (untag_artifacts : List (Option String) → Result Unit)
      → RecoverLaws (record {
        module_build_tag = session.module_build_tag;
        build_artifact = build_artifact;
        recover_orphaned_artifact = recover_orphaned_artifact session m;
        list_tasks_for_components = tasks;
        buildroot_ready = buildroot_ready;
        untag_artifacts = untag_artifacts;
      })
  koji_RecoverLaws b t r u = record {
    recovers = recover_orphaned_artifact-Recovered;
    keeps_modules = recover_orphaned_artifact-modules;
  }
