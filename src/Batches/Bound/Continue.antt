-- ===== src/Batches/Bound/Continue.antt =====
-- The limit on concurrent builds through a whole call of `continue_batch_build`.
use fm_orchestrator.Common.{
  ℕ, ◌≤◌, max, ◌≡◌, ◌≢◌, refl, sym, ◌∙◌, ap, Bool, false, some, List, [], ◌∷◌, All, All-filter, inl,
  inr, Bool-cases, leb, nat_eq, ◌==◌, is_nonempty, arith,
}
use fm_orchestrator.Exec.{pure, ◌>>=◌, ◌>>◌}
use fm_orchestrator.Exec.Ensures.{
  Ensures, Ensures-bind, Ensures-pure, Ensures-weaken, Ensures-if, Ensures-always, Ensures-of,
}
use fm_orchestrator.Models.{
  ModuleBuild, ComponentBuild, World, is_waiting_for_build, component_builds, current_batch, commit,
}
use fm_orchestrator.Models.Table.{
  find_row, find_row-put_self, find_row-put_ne, AreRows, AreRows-put, AreRows-filter,
  HasDistinctIds, HasDistinctIds-filter, count-put-le,
}
use fm_orchestrator.Builder.{Config, Builder}
use fm_orchestrator.Builder.Laws.{Recovered, Attempted, RecoverLaws}
use fm_orchestrator.Batches.{
  is_active, active_count, choose, recover_all, submit_all, insert_by_weight, sorted_by_weight,
  unbuilt_components, build_components, continue_batch_build,
}
use fm_orchestrator.Batches.Bound.{HasLimit, choose_bounded, choose-Chosen}
use fm_orchestrator.Batches.Bound.Submit.{submit_all-active_count}

-- The components after the recovery: rows with the ids that they had.
record Kept (cs : List ComponentBuild) (w : World) (cs' : List ComponentBuild) (w' : World)
    : Type 0 where
  distinct : HasDistinctIds cs'
  rows : AreRows cs' w'.components
  active : active_count w' ≤ active_count w
  ids : (i : ℕ) → All (λ d. d.id ≢ i) cs → All (λ d. d.id ≢ i) cs'
  others : (i : ℕ) → All (λ d. d.id ≢ i) cs → find_row i w'.components ≡ find_row i w.components

-- One recovery.
module _ (c c' : ComponentBuild) (found : Bool) (w w' : World)
    (r : Recovered c w (c', found) w') where
  Recovered-id : c'.id ≡ c.id
  Recovered-id = elim r [ inl (e, _) ↦ ap (λ x. x.id) e | inr (e, _, _) ↦ e ]

  Recovered-active : active_count w' ≤ active_count w
  Recovered-active = elim r [
    | inl (_, e) ↦ rw e (omega arith)
    | inr (_, done, e) ↦ rw e (ground (arith, count-put-le is_active c' w.components))
  ]

  Recovered-row : find_row c.id w.components ≡ some c → find_row c'.id w'.components ≡ some c'
  Recovered-row row = elim r [
    | inl (e, f) ↦ rw (f, e) row
    | inr (e, _, f) ↦ rw f (find_row-put_self c' c w.components (rw e row))
  ]

  Recovered-rows :
      (cs : List ComponentBuild)
      → All (λ d. d.id ≢ c.id) cs
      → AreRows cs w.components
      → AreRows cs w'.components
  Recovered-rows cs ne rows = elim r [
    | inl (_, f) ↦ rw f rows
    | inr (e, _, f) ↦ rw f (AreRows-put c' cs w.components (rw e ne) rows)
  ]

  Recovered-others : (i : ℕ) → c.id ≢ i → find_row i w'.components ≡ find_row i w.components
  Recovered-others i ne = elim r [
    | inl (_, f) ↦ rw f
    | inr (e, _, f) ↦ rw f (find_row-put_ne i c' w.components (λ p. ne (sym (p ∙ e))))
  ]

  Kept-cons :
      (cs cs' : List ComponentBuild) (w'' : World)
      → HasDistinctIds (c ∷ cs)
      → AreRows (c ∷ cs) w.components
      → Kept cs w' cs' w''
      → Kept (c ∷ cs) w (c' ∷ cs') w''
  Kept-cons cs cs' w'' dist rows k = record {
    distinct = (rw Recovered-id (k.ids c.id dist.0), k.distinct);
    rows = (k.others c'.id (rw Recovered-id dist.0) ∙ Recovered-row rows.0, k.rows);
    active = omega (arith, k.active, Recovered-active);
    ids = λ i h. (rw Recovered-id h.0, k.ids i h.1);
    others = λ i h. k.others i h.1 ∙ Recovered-others i h.0;
  }

Attempted-active :
    (c : ComponentBuild) (w w' : World) → Attempted c w w' → active_count w' ≤ active_count w
Attempted-active c w w' (inl e) = rw e (omega arith)
Attempted-active c w w' (inr (c', _, done, e)) =
    rw e (ground (arith, count-put-le is_active c' w.components))

module _ (builder : Builder) (laws : RecoverLaws builder) where
  recover_rest :
      (c c' : ComponentBuild) (found : Bool) (cs : List ComponentBuild) (w t : World)
      → HasDistinctIds (c ∷ cs)
      → AreRows (c ∷ cs) w.components
      → Recovered c w (c', found) t
      → Ensures (Kept cs t) (λ w'. active_count w' ≤ active_count t) (recover_all builder cs t)
      → Ensures
          (Kept (c ∷ cs) w)
          (λ w'. active_count w' ≤ active_count w)
          ((recover_all builder cs >>= λ cs'. pure (c' ∷ cs')) t)
  recover_rest c c' found cs w t dist rows r rest =
      Ensures-bind (recover_all builder cs) _ t
        (Ensures-weaken _ rest (λ _ _ k. k)
          (λ u le. omega (arith, Recovered-active c c' found w t r)))
        (λ cs' u k. Ensures-pure _ u (Kept-cons c c' found w t r cs cs' u dist rows k))

  recover_all-Kept :
      (cs : List ComponentBuild) (w : World)
      → HasDistinctIds cs
      → AreRows cs w.components
      → Ensures (Kept cs w) (λ w'. active_count w' ≤ active_count w) (recover_all builder cs w)
  unfolding recover_all
  recover_all-Kept [] w dist rows = Ensures-pure [] w (record {
    distinct = tt;
    rows = tt;
    active = omega arith;
    ids = λ i h. tt;
    others = λ i h. refl;
  })
  recover_all-Kept (c ∷ cs) w dist rows = elim (Bool-cases (is_waiting_for_build c)) [
    | inl waits ↦ rw waits (
        Ensures-bind (builder.recover_orphaned_artifact c) _ w
          (Ensures-weaken _ (laws.recovers c w) (λ _ _ r. r) (Attempted-active c w))
          (λ (c', found) t r.
            recover_rest c c' found cs w t dist rows r
              (recover_all-Kept cs t dist.1 (Recovered-rows c c' found w t r cs dist.0 rows.1))))
    | inr other ↦ rw other (
        recover_rest c c false cs w w dist rows (inl (refl, refl))
          (recover_all-Kept cs w dist.1 rows.1))
  ]

module _ (P : ComponentBuild → Type 0) where
  insert-All :
      (c : ComponentBuild) (cs : List ComponentBuild)
      → P c
      → All P cs
      → All P (insert_by_weight c cs)
  insert-All c [] p ps = (p, tt)
  insert-All c (d ∷ ds) p ps = let later = insert-All c ds p ps.1 in ground arith

  sorted-All : (cs : List ComponentBuild) → All P cs → All P (sorted_by_weight cs)
  unfolding sorted_by_weight
  sorted-All [] ps = tt
  sorted-All (c ∷ cs) ps = insert-All c (sorted_by_weight cs) ps.0 (sorted-All cs ps.1)

insert-HasDistinctIds :
    (c : ComponentBuild) (cs : List ComponentBuild)
    → All (λ d. d.id ≢ c.id) cs
    → HasDistinctIds cs
    → HasDistinctIds (insert_by_weight c cs)
insert-HasDistinctIds c [] ne dist = (tt, tt)
insert-HasDistinctIds c (d ∷ ds) ne dist = elim (Bool-cases (leb d.weight c.weight)) [
  | inl e ↦ rw e (ne, dist)
  | inr e ↦ rw e (
    insert-All (λ x. x.id ≢ d.id) c ds (λ p. ne.0 (sym p)) dist.0,
    insert-HasDistinctIds c ds ne.1 dist.1,
  )
]

sorted-HasDistinctIds :
    (cs : List ComponentBuild) → HasDistinctIds cs → HasDistinctIds (sorted_by_weight cs)
unfolding sorted_by_weight
sorted-HasDistinctIds [] dist = tt
sorted-HasDistinctIds (c ∷ cs) dist =
    insert-HasDistinctIds c (sorted_by_weight cs) (sorted-All (λ d. d.id ≢ c.id) cs dist.0)
      (sorted-HasDistinctIds cs dist.1)

-- Components that are rows, one for each key.
abbrev pub AreDistinctRows : List ComponentBuild → World → Type 0
AreDistinctRows cs w = HasDistinctIds cs × AreRows cs w.components

module _ (cfg : Config) (builder : Builder) (laws : RecoverLaws builder)
    (limit : HasLimit cfg) where
  abbrev IsBounded : World → World → Type 0
  IsBounded w w' = active_count w' ≤ max cfg.num_concurrent_builds (active_count w)

  submit-IsBounded :
      (cs : List ComponentBuild) (w t : World)
      → active_count t ≤ active_count w
      → AreDistinctRows cs t
      → Ensures
          (λ _. IsBounded w)
          (IsBounded w)
          ((submit_all builder (choose cfg cs t).0 >> commit) (choose cfg cs t).1)
  unfolding commit
  submit-IsBounded cs w t le rows =
      let chosen = choose-Chosen cfg cs t rows.0 rows.1 in
      let submitted =
        submit_all-active_count builder (choose cfg cs t).0 (choose cfg cs t).1 chosen.rows
          chosen.building chosen.distinct in
      Ensures-bind (submit_all builder (choose cfg cs t).0) (λ _. commit) (choose cfg cs t).1
        (Ensures-of (IsBounded w) _ (omega (arith, submitted, choose_bounded cfg cs t limit)))
        (λ _ u h. record { holds = h })

  build_components-IsBounded :
      (cs : List ComponentBuild) (w : World)
      → AreDistinctRows cs w
      → Ensures (λ _. IsBounded w) (IsBounded w) (build_components cfg builder cs w)
  unfolding build_components
  build_components-IsBounded cs w rows =
      Ensures-bind (recover_all builder cs) _ w
        (Ensures-weaken _ (recover_all-Kept builder laws cs w rows.0 rows.1) (λ _ _ k. k)
          (λ t le. omega arith))
        (λ cs' t k. submit-IsBounded cs' w t k.active (k.distinct, k.rows))

  unbuilt-AreDistinctRows :
      (m : ModuleBuild) (components : List ComponentBuild) (w : World)
      → HasDistinctIds w.components
      → AreDistinctRows components w
      → Ensures
          (λ cs t. (t ≡ w) × AreDistinctRows cs w)
          (λ t. t ≡ w)
          (unbuilt_components m components w)
  unfolding unbuilt_components current_batch component_builds
  unbuilt-AreDistinctRows m (c ∷ cs) w keys rows = record { holds = (refl, rows) }
  unbuilt-AreDistinctRows m [] w keys rows = elim (Bool-cases (m.batch == 0)) [
    | inl e ↦ rw e (record { holds = refl })
    | inr e ↦ rw e (record {
      holds = (
        refl,
        (
          HasDistinctIds-filter _ _ (HasDistinctIds-filter _ _ (HasDistinctIds-filter _ _ keys)),
          All-filter _ _ _ (All-filter _ _ _ (AreRows-filter _ w.components keys)),
        ),
      );
    })
  ]

  -- Whatever the builder answers, a call of continue_batch_build ends, normally or with an
  -- exception, with no more component builds running than the limit, or than there were before if
  -- those were more. A limit is set, the primary keys are distinct, the components that a caller
  -- passes are rows of the table, and the builder keeps the rules of recover_orphaned_artifact.
  pub continue_batch_build-bounded :
      (m : ModuleBuild) (components : List ComponentBuild) (w : World)
      → HasDistinctIds w.components
      → AreDistinctRows components w
      → active_count (continue_batch_build cfg m builder components w).1
        ≤ max cfg.num_concurrent_builds (active_count w)
  unfolding continue_batch_build
  continue_batch_build-bounded m components w keys rows = Ensures-always (IsBounded w) _ (
      Ensures-bind (unbuilt_components m components) _ w
        (Ensures-weaken _ (unbuilt-AreDistinctRows m components w keys rows) (λ _ _ h. h)
          (λ t e. rw e (omega arith)))
        (λ cs t h.
          Ensures-if (is_nonempty cs) _ _ t
            (λ _. rw h.0 (
              build_components-IsBounded (sorted_by_weight cs) w
                (sorted-HasDistinctIds cs h.1.0, sorted-All _ cs h.1.1)))
            (λ _. Ensures-pure tt t (rw h.0 (omega arith)))))
