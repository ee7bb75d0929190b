-- ===== src/Submission/Batches.antt =====
-- The batches that `record_component_builds` of module_build_service/scheduler/submit.py gives.
use fm_orchestrator.Common.{
  ℕ, zero, suc, ◌+◌, ◌≤◌, ◌≡◌, refl, sym, ◌∙◌, ap, subst, true, not, ◌||◌, Option, none, some,
  String, List, [], ◌∷◌, ◌++◌, is_nonempty, option_eq, nat_eq, string_eq, ◌==◌, arith, ◌^^◌,
}
use fm_orchestrator.Exec.{Exec, ok, pure, lift, ◌>>=◌}
use fm_orchestrator.Exec.Ensures.{
  Ensures, Ensures-pure, Ensures-bind, Ensures-if, Ensures-lift, Ensures-weaken,
}
use fm_orchestrator.Submission.Mmd.{
  RpmComponent, ModuleMd, Component, buildorder, PlannedBuild, Plan, Refs, find_ref,
}
use fm_orchestrator.Submission.Overrides.{Overrides, find_override}
use fm_orchestrator.Submission.Recording.{
  Sources, has_duplicates, all_components, sorted_by_order, insert_by_order, merge_into_main,
  main_rpms, refs_of, ref_and_url, ref_url, existing_build, add_build, record_rpm, next_batch,
  Again, record_one, record_all, record_component_builds,
}
use fm_orchestrator.Submission.Order.{Adds, Adds-nothing, Adds-lower, Adds-trans}

abbrev Any : Plan → Type 0
Any t = Unit {0}

module _ (sources : Sources) where
  -- The rule for a part of the run that starts in a batch.
  abbrev Grows : ℕ → Exec Plan (Option ℕ) → Plan → Type 0
  Grows lo e s = Ensures (Adds lo s) Any (e s)

  -- A part that changes nothing but the refs of the main document.
  abbrev Same : Plan → Plan → Type 0
  Same s t = t.builds ≡ s.builds

  ref_url-Same :
      (c : RpmComponent) (o : Option (Option String)) (s : Plan)
      → Ensures (λ _. Same s) Any (ref_url c o s)
  ref_url-Same c none s = record { holds = tt }
  ref_url-Same c (some none) s = record { holds = tt }
  ref_url-Same c (some (some ref)) s = record { holds = refl }

  ref_and_url-Same :
      (c : RpmComponent) (o : Option String) (refs : Option Refs) (s : Plan)
      → Ensures (λ _. Same s) Any (ref_and_url c o refs s)
  ref_and_url-Same c (some source) refs s = record { holds = refl }
  ref_and_url-Same c none none s = record { holds = tt }
  ref_and_url-Same c none (some refs) s = ref_url-Same c (find_ref c.name refs) s

  add_build-Grows :
      (c : RpmComponent) (b : ℕ) (pair : Option String × String) (e : Option PlannedBuild)
      (s : Plan)
      → Ensures (λ _. Adds b s (some b)) Any (add_build sources c (some b) pair e s)
  add_build-Grows c b (ref, url) (some e) s =
      Ensures-if (not (e.batch == some b) || not (e.scmurl == url) || not (e.ref == ref)) _ _ s
        (λ _. record { holds = tt })
        (λ _. record { holds = Adds-nothing b b s s (omega arith) refl })
  add_build-Grows c b (ref, url) none s = record {
    holds = record {
      last = b;
      returned = refl;
      added = _;
      builds = refl;
      within = (b, refl, omega arith, omega arith);
    };
  }

  record_rpm-Grows :
      (overrides : Overrides) (main : Option (List RpmComponent)) (mmd : ModuleMd) (b : ℕ)
      (c : RpmComponent) (s : Plan)
      → Ensures (λ _. Adds b s (some b)) Any (record_rpm sources overrides main mmd (some b) c s)
  unfolding record_rpm
  record_rpm-Grows overrides main mmd b c s =
      Ensures-bind (ref_and_url c (find_override c.name overrides) (refs_of main mmd s)) _ s
        (ref_and_url-Same c (find_override c.name overrides) (refs_of main mmd s) s)
        (λ pair t same.
          Ensures-weaken {F = Any} _ (add_build-Grows c b pair (existing_build c.name t) t)
            (λ _ u k. record {
              last = k.last;
              returned = k.returned;
              added = k.added;
              builds = k.builds ∙ ap (λ l. l ++ k.added) same;
              within = k.within;
            })
            (λ _ _. tt))

  module _ (again : Again sources) (overrides : Overrides) (main : Option (List RpmComponent))
      (mmd : ModuleMd)
      (grows : (inner : ModuleMd) (b : ℕ) (previous : Option ℕ) (names : Option (List RpmComponent))
          (s : Plan)
        → is_nonempty (all_components inner) ≡ true
        → Grows b (again inner (some b) previous names) s)
      (filled : (url : String) (inner : ModuleMd)
        → sources.fetch url ≡ ok inner
        → is_nonempty (all_components inner) ≡ true) where
    record_one-Grows :
        (b : ℕ) (c : Component) (s : Plan)
        → Grows b (record_one sources again overrides main mmd (some b) c) s
    record_one-Grows b (Component.rpm c) s =
        Ensures-bind (record_rpm sources overrides main mmd (some b) c) (λ _. pure (some b)) s
          (record_rpm-Grows overrides main mmd b c s) (λ _ t k. Ensures-pure (some b) t k)
    record_one-Grows b (Component.included m) s =
        Ensures-bind {P = λ inner t. (is_nonempty (all_components inner) ≡ true) × (t ≡ s)}
          (lift (sources.fetch (m.repository ^^ "?#" ^^ m.ref))) _ s
          (Ensures-lift (sources.fetch (m.repository ^^ "?#" ^^ m.ref)) s
            (λ inner e. (filled _ inner e, refl)) tt)
          (λ inner t k.
            subst
              (λ u.
                Ensures (Adds b u) Any
                  (again inner (some b) (some m.buildorder) (some (main_rpms main mmd)) t))
              k.1 (grows inner b (some m.buildorder) (some (main_rpms main mmd)) t k.0))

    -- The batch that a component gets.
    next_batch-Keeps :
        (previous : Option ℕ) (order b : ℕ) (s : Plan)
        → Ensures
            (λ o t. (k : ℕ) × (o ≡ some k) × (b ≤ k) × (t ≡ s))
            Any
            (next_batch sources previous order (some b) s)
    next_batch-Keeps previous order b s =
        Ensures-if (previous == some order) (pure (some b)) (pure (some (b + 1))) s
          (λ _. record { holds = (b, refl, omega arith, refl) })
          (λ _. record { holds = (b + 1, refl, omega arith, refl) })

    -- The components from one on, once its batch is known; the rest goes on from any batch.
    from_batch :
        (rest : Option ℕ → Exec Plan (Option ℕ))
        → ((b : ℕ) (t : Plan) → Grows b (rest (some b)) t)
        → (c : Component) (lo k : ℕ) (s : Plan) → lo ≤ k
        → Grows lo (λ t. (record_one sources again overrides main mmd (some k) c >>= rest) t) s
    from_batch rest next c lo k s le =
        Ensures-bind (record_one sources again overrides main mmd (some k) c) rest s
          (record_one-Grows k c s)
          (λ after t h.
            subst (λ o. Ensures (Adds lo s) Any (rest o t)) (sym h.returned)
              (Ensures-weaken {F = Any} (rest (some h.last) t) (next h.last t)
                (λ o u l. Adds-lower k lo s u o le (Adds-trans k s t u after o h l)) (λ _ _. tt)))

    record_all-Grows :
        (cs : List Component) (b : ℕ) (previous : Option ℕ) (s : Plan)
        → Grows b (record_all sources again overrides main mmd cs (some b) previous) s
    unfolding record_all
    record_all-Grows [] b previous s = record { holds = Adds-nothing b b s s (omega arith) refl }
    record_all-Grows (c ∷ cs) b previous s =
        Ensures-bind (next_batch sources previous (buildorder c) (some b)) _ s
          (next_batch-Keeps previous (buildorder c) b s)
          (λ o t (k, e, le, same).
            rw (e, same)
              (from_batch
                (λ after.
                  record_all sources again overrides main mmd cs after (some (buildorder c)))
                (λ d u. record_all-Grows cs d (some (buildorder c)) u) c b k s le))

    -- Where there is no previous build order, the first component begins a batch.
    record_first-Grows :
        (cs : List Component) (b : ℕ) (s : Plan)
        → is_nonempty cs ≡ true
        → Grows (b + 1) (record_all sources again overrides main mmd cs (some b) none) s
    unfolding record_all
    record_first-Grows [] b s h = absurd cc
    record_first-Grows (c ∷ cs) b s h =
        from_batch
          (λ after. record_all sources again overrides main mmd cs after (some (buildorder c)))
          (λ d u. record_all-Grows cs d (some (buildorder c)) u) c (b + 1) (b + 1) s (omega arith)

insert-is_nonempty :
    (c : Component) (cs : List Component) → is_nonempty (insert_by_order c cs) ≡ true
unfolding insert_by_order
insert-is_nonempty c [] = refl
insert-is_nonempty c (d ∷ cs) = ground arith

sorted-is_nonempty :
    (cs : List Component) → is_nonempty cs ≡ true → is_nonempty (sorted_by_order cs) ≡ true
unfolding sorted_by_order
sorted-is_nonempty [] h = absurd cc
sorted-is_nonempty (c ∷ cs) h = insert-is_nonempty c (sorted_by_order cs)

merge-Same :
    (main : Option (List RpmComponent)) (mmd : ModuleMd) (s : Plan)
    → Ensures (λ _ t. t.builds ≡ s.builds) Any (merge_into_main main mmd s)
merge-Same none mmd s = record { holds = refl }
merge-Same (some main) mmd s =
    Ensures-if (has_duplicates main mmd.rpms) _ _ s (λ _. record { holds = tt })
      (λ _. record { holds = refl })

module _ (sources : Sources)
    (filled : (url : String) (inner : ModuleMd)
      → sources.fetch url ≡ ok inner
      → is_nonempty (all_components inner) ≡ true) where
  from_builds :
      (lo : ℕ) (s t : Plan) (e : Exec Plan (Option ℕ))
      → t.builds ≡ s.builds
      → Ensures (Adds lo t) Any (e t)
      → Ensures (Adds lo s) Any (e t)
  from_builds lo s t e same h =
      Ensures-weaken {F = Any} (e t) h
        (λ o u k. record {
          last = k.last;
          returned = k.returned;
          added = k.added;
          builds = k.builds ∙ ap (λ l. l ++ k.added) same;
          within = k.within;
        })
        (λ _ _. tt)

  inner-Grows :
      (depth : ℕ) (mmd : ModuleMd) (b : ℕ) (previous : Option ℕ) (main : Option (List RpmComponent))
      (s : Plan)
      → is_nonempty (all_components mmd) ≡ true
      → Ensures (Adds b s) Any (record_component_builds sources depth mmd (some b) previous main s)
  unfolding record_component_builds
  inner-Grows zero mmd b previous main s h = record { holds = tt }
  inner-Grows (suc depth) mmd b previous main s h =
      Ensures-bind (merge_into_main main mmd) _ s (merge-Same main mmd s) (λ _ t same. rw h (
        Ensures-bind {P = λ _ u. u ≡ t} (lift sources.srpm_overrides) _ t
          (Ensures-lift sources.srpm_overrides t (λ _ _. refl) tt)
          (λ overrides u k. rw k (
            from_builds b s t
              (record_all sources (record_component_builds sources depth) overrides main mmd
                (sorted_by_order (all_components mmd)) (some b) previous)
              same
              (record_all-Grows sources (record_component_builds sources depth) overrides main mmd
                (inner-Grows depth) filled (sorted_by_order (all_components mmd)) b previous t)))))

  -- Where record_component_builds for a submitted module with components returns, the component
  -- builds that it added, those of included modules among them, stand in batches that never fall
  -- in the order of their creation, from 2 at the least, since batch 1 is for module-build-
  -- macros, to the batch that the function gives back; the component builds that were there stay.
  -- Each included module has components.
  pub record_component_builds-Adds :
      (depth : ℕ) (mmd : ModuleMd) (s : Plan)
      → is_nonempty (all_components mmd) ≡ true
      → Ensures (Adds 2 s) Any (record_component_builds sources depth mmd (some 1) none none s)
  unfolding record_component_builds
  record_component_builds-Adds zero mmd s h = record { holds = tt }
  record_component_builds-Adds (suc depth) mmd s h = rw h (
      Ensures-bind {P = λ _ u. u ≡ s} (lift sources.srpm_overrides) _ s
        (Ensures-lift sources.srpm_overrides s (λ _ _. refl) tt)
        (λ overrides u k. rw k (
          record_first-Grows sources (record_component_builds sources depth) overrides none mmd
            (inner-Grows depth) filled (sorted_by_order (all_components mmd)) 1 s
            (sorted-is_nonempty (all_components mmd) h))))
