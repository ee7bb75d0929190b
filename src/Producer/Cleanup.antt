-- ===== src/Producer/Cleanup.antt =====
-- `cleanup_stale_failed_builds` of module_build_service/scheduler/producer.py.
use fm_orchestrator.Common.{
  Option, ℕ, ◌+◌, ◌*◌, ◌≡◌, refl, sym, ◌∙◌, ap, subst, Bool, true, false, ◌&&◌, any, some, String,
  List, [], ◌∷◌, map, filter, leb, if◌then◌else◌, nat_eq, ◌==◌, fold_each, filter-filter, arith,
  ◌^^◌,
}
use fm_orchestrator.Exec.{Exec, Result, ok, resume, pure, gets, lift, modify, for_each, ◌>>=◌, ◌>>◌}
use fm_orchestrator.Exec.Loops.{for_each-ok, for_each-fold, for_each-Keeps}
use fm_orchestrator.Models.{
  BuildState, FailureType, ModuleBuild, ComponentBuild, World, Call, put_module, put_module_row,
  put_component, put_component_row, component_builds, commit, call, transition, transitioned,
  state_code, is_completed,
}
use fm_orchestrator.Models.History.{transition-modules}
use fm_orchestrator.Models.Keys.{HasDistinctKeys}
use fm_orchestrator.Models.Table.{HasDistinctIds}
use fm_orchestrator.Models.Update.{
  update_where, put_modules-update, put_components-update, HasDistinctIds-update, fold-update_where,
}
use fm_orchestrator.Builder.{System, Builder}

-- The option cleanup_failed_builds_time, and the same as text.
pub record CleanupOptions : Type 0 where
  pub system : System
  pub days : ℕ
  pub days_text : String

abbrev pub is_koji : System → Bool
is_koji System.koji = true
is_koji _ = false

abbrev pub untagged : ComponentBuild → ComponentBuild
untagged c = record c { tagged = false; tagged_in_final = false }

module _ (options : CleanupOptions) (create_builder : ModuleBuild → Result Builder) where
  -- The query. The age is not taken as a difference, which could stop at 0.
  abbrev pub is_stale : ℕ → ModuleBuild → Bool
  is_stale now m =
      (state_code m.state == state_code BuildState.failed)
      && leb (m.time_modified + options.days * 86400) now

  abbrev pub collection_reason : String
  collection_reason =
      "The module was garbage collected since it has failed over " ^^ options.days_text
      ^^ " day(s) ago"

  abbrev pub mark_untagged : ComponentBuild → Exec World Unit
  mark_untagged c = modify (put_component (untagged c))

  -- The part under `if artifacts`. The builder does not connect to the build root here. Creating
  -- it may raise, and so may untag_artifacts, as its documentation says.
  unfoldable pub untag_all : ModuleBuild → List ComponentBuild → Exec World Unit
  unfolding call put_component for_each
  untag_all m [] = pure tt
  untag_all m (c ∷ cs) = do
    builder ← lift (create_builder m)
    call (Call.untag_artifacts (map (λ d. d.nvr) (c ∷ cs)))
    lift (builder.untag_artifacts (map (λ d. d.nvr) (c ∷ cs)))
    for_each mark_untagged (c ∷ cs)

  -- The body of the loop.
  unfoldable pub clean_up : ModuleBuild → Exec World Unit
  unfolding untag_all component_builds transition commit
  clean_up m = do
    artifacts ← gets (λ w. filter is_completed (component_builds m w))
    untag_all m artifacts
    transition m BuildState.garbage (some collection_reason) FailureType.user
    commit

  unfoldable pub cleanup_stale_failed_builds : Exec World Unit
  unfolding clean_up for_each
  cleanup_stale_failed_builds =
      if is_koji options.system
      then (do stale ← gets (λ w. filter (is_stale w.now) w.modules); for_each clean_up stale)
      else pure tt

  -- The row of a module build that is collected.
  abbrev pub collected : ℕ → ModuleBuild → ModuleBuild
  collected now m = transitioned m BuildState.garbage (some collection_reason) now

-- A backend can be created for each module build, and Koji takes the tags away.
abbrev pub Untagging : (ModuleBuild → Result Builder) → Type 0
Untagging create_builder =
    (m : ModuleBuild)
    → (b : Builder) × (create_builder m ≡ ok b)
      × ((nvrs : List (Option String)) → b.untag_artifacts nvrs ≡ ok tt)

module _ (options : CleanupOptions) (create_builder : ModuleBuild → Result Builder)
    (untags : Untagging create_builder) where
  resume-ok :
      {A B : Type 0} (r : Result A) (a : A) (f : A → Exec World B) (s : World)
      → r ≡ ok a
      → resume r f s ≡ f a s
  resume-ok r a f s e = rw e refl

  -- What the part under `if artifacts` leaves.
  record Untags (cs : List ComponentBuild) (w : World) (o : Result Unit × World) : Type 0 where
    returned : o.0 ≡ ok tt
    components : o.1.components ≡ fold_each (λ c. put_component_row (untagged c)) cs w.components
    modules : o.1.modules ≡ w.modules
    clock : o.1.now ≡ w.now

  mark_all-Untags :
      (cs : List ComponentBuild) (w : World)
      → Untags cs w (for_each (mark_untagged options create_builder) cs w)
  unfolding put_component
  mark_all-Untags cs w = record {
    returned = for_each-ok (λ _. Unit {0}) _ (λ _ _ _. refl) (λ _ _ _. tt) cs w tt;
    components =
        for_each-fold (λ _. Unit {0}) _ (λ _ _ _. refl) (λ _ _ _. tt) (λ s. s.components)
          (λ c. put_component_row (untagged c)) (λ _ _ _. refl) cs w tt;
    modules = for_each-Keeps (λ s. s.modules ≡ w.modules) _ (λ _ _ _. refl) (λ _ _ k. k) cs w refl;
    clock = for_each-Keeps (λ s. s.now ≡ w.now) _ (λ _ _ _. refl) (λ _ _ k. k) cs w refl;
  }

  untag_all-Untags :
      (m : ModuleBuild) (cs : List ComponentBuild) (w : World)
      → Untags cs w (untag_all options create_builder m cs w)
  unfolding untag_all call
  untag_all-Untags m [] w = record {
    returned = refl;
    components = refl;
    modules = refl;
    clock = refl;
  }
  untag_all-Untags m (c ∷ cs) w =
      let nvrs = map (λ d. d.nvr) (c ∷ cs) in
      let (builder, created, untagged_ok) = untags m in
      let t = (call (Call.untag_artifacts nvrs) w).1 in
      let marks = for_each (mark_untagged options create_builder) (c ∷ cs) in
      subst (Untags (c ∷ cs) w)
        (sym (
          resume-ok (create_builder m) builder
            (λ b. call (Call.untag_artifacts nvrs) >> (lift (b.untag_artifacts nvrs) >> marks)) w
            created
          ∙ resume-ok (builder.untag_artifacts nvrs) tt (λ _. marks) t (untagged_ok nvrs)))
        (after (mark_all-Untags (c ∷ cs) t))
    where
      after :
          {o : Result Unit × World}
          → Untags (c ∷ cs) (call (Call.untag_artifacts (map (λ d. d.nvr) (c ∷ cs))) w).1 o
          → Untags (c ∷ cs) w o
      after k = record {
        returned = k.returned;
        components = k.components;
        modules = k.modules;
        clock = k.clock;
      }

  -- The components of the module build that were completed.
  abbrev pub is_artifact : ModuleBuild → ComponentBuild → Bool
  is_artifact m c = (c.module_id == m.id) && is_completed c

  -- What one round leaves.
  record Cleans (m : ModuleBuild) (w : World) (o : Result Unit × World) : Type 0 where
    returned : o.0 ≡ ok tt
    components :
        HasDistinctIds w.components
        → o.1.components ≡ update_where (is_artifact m) untagged w.components
    modules : o.1.modules ≡ put_module_row (collected options create_builder w.now m) w.modules
    clock : o.1.now ≡ w.now

  collect : ModuleBuild → Exec World Unit
  unfolding transition commit
  collect m =
      transition m BuildState.garbage (some (collection_reason options create_builder))
        FailureType.user
      >> commit

  collect-components : (m : ModuleBuild) (w : World) → (collect m w).1.components ≡ w.components
  unfolding collect transition commit put_module
  collect-components m w = ground arith

  collect-now : (m : ModuleBuild) (w : World) → (collect m w).1.now ≡ w.now
  unfolding collect transition commit put_module
  collect-now m w = ground arith

  collect-Cleans :
      (m : ModuleBuild) (cs : List ComponentBuild) (w : World) (o : Result Unit × World)
      → cs ≡ filter (is_artifact m) w.components
      → Untags cs w o
      → Cleans m w (resume o.0 (λ _. collect m) o.1)
  unfolding collect transition commit put_module
  collect-Cleans m cs w o e k =
      subst (Cleans m w) (sym (resume-ok o.0 tt (λ _. collect m) o.1 k.returned)) (record {
        returned = refl;
        components = λ keys.
            collect-components m o.1
            ∙ k.components
            ∙ ap (λ l. fold_each (λ c. put_component_row (untagged c)) l w.components) e
            ∙ put_components-update untagged (λ _. refl) (is_artifact m) w.components keys;
        modules =
            subst
              (λ ms.
                (collect m o.1).1.modules
                ≡ put_module_row (collected options create_builder w.now m) ms)
              k.modules
              (subst
                (λ now.
                  (collect m o.1).1.modules
                  ≡ put_module_row (collected options create_builder now m) o.1.modules)
                k.clock
                (transition-modules m BuildState.garbage
                  (some (collection_reason options create_builder)) FailureType.user o.1));
        clock = collect-now m o.1 ∙ k.clock;
      })

  clean_up-Cleans : (m : ModuleBuild) (w : World) → Cleans m w (clean_up options create_builder m w)
  unfolding clean_up component_builds collect
  clean_up-Cleans m w =
      let cs = filter is_completed (filter (λ c. c.module_id == m.id) w.components) in
      collect-Cleans m cs w (untag_all options create_builder m cs w)
        (filter-filter (λ c. c.module_id == m.id) is_completed w.components)
        (untag_all-Untags m cs w)

  module _ (w : World) where
    Stays : World → Type 0
    Stays s = (s.now ≡ w.now) × HasDistinctIds s.components

    clean_up-Stays :
        (m : ModuleBuild) (s : World) → Stays s → Stays (clean_up options create_builder m s).1
    unfolding Stays
    clean_up-Stays m s k =
        let c = clean_up-Cleans m s in
        (
          c.clock ∙ k.0,
          subst HasDistinctIds (sym (c.components k.1))
              (HasDistinctIds-update untagged (λ _. refl) (is_artifact m) s.components k.1),
        )

    -- The module builds, whatever the keys of the components.
    cleanup_stale_failed_builds-modules :
        is_koji options.system ≡ true
        → HasDistinctKeys w.modules
        → ((cleanup_stale_failed_builds options create_builder w).0 ≡ ok tt)
          × ((cleanup_stale_failed_builds options create_builder w).1.modules
              ≡ update_where
                  (is_stale options create_builder w.now)
                  (collected options create_builder w.now)
                  w.modules)
    unfolding cleanup_stale_failed_builds transitioned
    cleanup_stale_failed_builds-modules koji keys =
        let stale = filter (is_stale options create_builder w.now) w.modules in
        rw koji (
          for_each-ok (λ s. s.now ≡ w.now) (clean_up options create_builder)
              (λ m s _. (clean_up-Cleans m s).returned) (λ m s k. (clean_up-Cleans m s).clock ∙ k)
              stale w refl,
          for_each-fold (λ s. s.now ≡ w.now) (clean_up options create_builder)
                (λ m s _. (clean_up-Cleans m s).returned) (λ m s k. (clean_up-Cleans m s).clock ∙ k)
                (λ s. s.modules) (λ m. put_module_row (collected options create_builder w.now m))
                (λ m s k.
                  (clean_up-Cleans m s).modules
                  ∙ ap (λ now. put_module_row (collected options create_builder now m) s.modules) k)
                stale w refl
              ∙ put_modules-update (collected options create_builder w.now) (λ _. refl)
                  (is_stale options create_builder w.now) w.modules keys,
        )

    clean_up-ok :
        (m : ModuleBuild) (s : World) → Stays s → (clean_up options create_builder m s).0 ≡ ok tt
    unfolding Stays
    clean_up-ok m s k = (clean_up-Cleans m s).returned

    -- The artifacts of the stale builds: the completed components.
    abbrev pub is_stale_artifact : ComponentBuild → Bool
    is_stale_artifact c =
        any (λ m. is_artifact m c) (filter (is_stale options create_builder w.now) w.modules)

    pub record AreCollected (t : World) : Type 0 where
      pub modules :
          t.modules
          ≡ update_where
              (is_stale options create_builder w.now)
              (collected options create_builder w.now)
              w.modules
      pub components : t.components ≡ update_where is_stale_artifact untagged w.components

    -- On Koji, cleanup_stale_failed_builds returns. Then the module builds that were failed for
    -- the configured days or longer are garbage, with the reason that the code gives, and no
    -- other row of the module builds changed; the completed components of these builds are no
    -- longer tagged, and no other row of the components changed. The keys of both tables are
    -- distinct, a backend can be created for each build, and untag_artifacts does not raise.
    pub cleanup_stale_failed_builds-AreCollected :
        is_koji options.system ≡ true
        → HasDistinctKeys w.modules
        → HasDistinctIds w.components
        → ((cleanup_stale_failed_builds options create_builder w).0 ≡ ok tt)
          × AreCollected (cleanup_stale_failed_builds options create_builder w).1
    unfolding cleanup_stale_failed_builds Stays transitioned
    cleanup_stale_failed_builds-AreCollected koji keys ids =
        let stale = filter (is_stale options create_builder w.now) w.modules in
        let body = clean_up options create_builder in
        let h = cleanup_stale_failed_builds-modules koji keys in
        (
          h.0,
          record {
            modules = h.1;
            components = rw koji (
                for_each-fold Stays body clean_up-ok clean_up-Stays (λ s. s.components)
                  (λ m. update_where (is_artifact m) untagged)
                  (λ m s k. (clean_up-Cleans m s).components k.1) stale w (refl, ids)
                ∙ fold-update_where is_artifact untagged (λ _ _. refl) (λ _. refl) stale
                    w.components);
          },
        )
