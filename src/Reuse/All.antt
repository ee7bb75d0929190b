-- ===== src/Reuse/All.antt =====
-- `attempt_to_reuse_all_components` of module_build_service/scheduler/reuse.py where it returns
-- True.
use fm_orchestrator.Common.{
  ℕ, ◌≡◌, ◌≢◌, refl, sym, ap, ◌∙◌, subst, Bool, true, false, inl, inr, Option, none, some, List, [],
  ◌∷◌, All, eq_iff, string_eq, ◌==◌, Bool-cases, Option-cases, Option,
}
use fm_orchestrator.Exec.{ok, lift}
use fm_orchestrator.Exec.Ensures.{
  Ensures, Ensures-outcome, Ensures-bind, Ensures-weaken, Ensures-ok, Ensures-of, Ensures-lift,
  Ensures-and,
}
use fm_orchestrator.Models.{
  commit, ModuleBuild, ComponentBuild, World, call, component_builds, put_module, put_component,
  put_component_row,
}
use fm_orchestrator.Models.Table.{
  find_row, AreRows, HasDistinctIds, find_row-put_self, find_row-put_ne, HasDistinctIds-filter,
  AreRows-filter,
}
use fm_orchestrator.Reuse.Checks.{OnlyLogs, OnlyLogs-refl}
use fm_orchestrator.Reuse.AllOrNothing.{
  SameBuilds, get_reusable_module-SameBuilds, get_reusable_component-Logs, reusable_pairs-Logs,
}
use fm_orchestrator.Reuse.{
  remember, reused_or_found, reused_module, find_previous, ReuseEnv, reused, reuse_component,
  get_reusable_component, reusable_pairs, reuse_pairs, tag_pairs, reuse_all, get_reusable_module,
  attempt_to_reuse_all_components,
}
use fm_orchestrator.Reuse.Pairs.{
  Pairs, Relation, CoversAll, IsReusedOrMacros, RowsOf, covered-rows, Apart, Distinct, PairRows,
  covered-Distinct, covered-PairRows,
}

not_id : (a b : ℕ) → a ≢ b → b ≢ a
not_id a b h e = h (sym e)

module _ (env : ReuseEnv) where
  -- The earlier component is the one that the checks of get_reusable_component give for the package
  -- of the component in the earlier module build, on the rows of the store.
  abbrev pub IsAnswer : ModuleBuild → ModuleBuild → World → ComponentBuild → ComponentBuild → Type 0
  IsAnswer m previous start c old =
      (u : World) × OnlyLogs start u
      × (m' : ModuleBuild) × ((get_reusable_component env m c.package_name (some previous) u).0
          ≡ ok (m', some old))

  reusable_pairs-Covers :
      (start : World) (m previous : ModuleBuild) (cs : List ComponentBuild) (t : World)
      → OnlyLogs start t
      → Ensures
          (λ o _. CoversAll (IsAnswer m previous start) cs o)
          (λ _. Unit {0})
          (reusable_pairs env m previous cs t)
  unfolding reusable_pairs
  reusable_pairs-Covers start m previous [] t logs = record { holds = refl }
  reusable_pairs-Covers start m previous (c ∷ cs) t logs =
      elim (Bool-cases (c.package_name == "module-build-macros")) [
        | inl e ↦ rw e (
            Ensures-weaken (reusable_pairs env m previous cs t)
              (reusable_pairs-Covers start m previous cs t logs)
              (λ o _ h. covered_macros o ((eq_iff _ _).0 e) h) (λ _ k. k))
        | inr e ↦ rw e (
            Ensures-bind (get_reusable_component env m c.package_name (some previous)) _ t
              (Ensures-and (get_reusable_component env m c.package_name (some previous) t)
                (Ensures-outcome (get_reusable_component env m c.package_name (some previous) t))
                (Ensures-weaken {Q = λ _. OnlyLogs start} {F = λ _. Unit {0}} _
                  (get_reusable_component-Logs env start m c.package_name previous t logs)
                  (λ _ _ k. k) (λ _ _. tt)))
              (λ (m', found) u answer. elim (Option-cases found) [
                | inl e ↦ rw e (record { holds = tt })
                | inr (old, e) ↦ rw e (
                    Ensures-bind (reusable_pairs env m previous cs) _ u
                      (reusable_pairs-Covers start m previous cs u answer.1)
                      (λ pairs v h. elim (Option-cases pairs) [
                        | inl e' ↦ rw e' (record { holds = tt })
                        | inr (ps, e') ↦ rw e' (record {
                          holds = inr (
                            old,
                            ps,
                            (t, logs, m', ap (λ o. o.0) answer.0 ∙ ap (λ o. ok (m', o)) e),
                            refl,
                            subst (CoversAll (IsAnswer m previous start) cs) e' h,
                          );
                        })
                      ]))
              ]))
      ]
    where
      covered_macros :
          (o : Option Pairs)
          → c.package_name ≡ "module-build-macros"
          → CoversAll (IsAnswer m previous start) cs o
          → CoversAll (IsAnswer m previous start) (c ∷ cs) o
      covered_macros none e h = tt
      covered_macros (some ps) e h = inl (e, h)

  reuse_component-row :
      (c old : ComponentBuild) (w : World)
      → Ensures
          (λ _ t. t.components ≡ put_component_row (reused c old true) w.components)
          (λ _. Unit {0})
          (reuse_component env c old true false w)
  unfolding reuse_component put_component
  reuse_component-row c old w =
      Ensures-bind {P = λ _ t. t.components ≡ put_component_row (reused c old true) w.components}
        (lift (env.parse_nvr old.nvr)) _ (put_component (reused c old true) w)
        (Ensures-lift _ _ (λ _ _. refl) tt) (λ nvr t k. record { holds = k })

  reuse_pairs-find_row :
      (i : ℕ) (x : ComponentBuild) (ps : Pairs) (m : ModuleBuild) (w : World)
      → Apart i ps
      → find_row i w.components ≡ some x
      → Ensures (λ _ t. find_row i t.components ≡ some x) (λ _. Unit {0}) (reuse_pairs env m ps w)
  unfolding reuse_pairs put_module
  reuse_pairs-find_row i x [] m w apart row = record { holds = row }
  reuse_pairs-find_row i x ((c, old) ∷ ps) m w apart row =
      Ensures-bind (reuse_component env c old true false) _ _ (reuse_component-row c old _)
        (λ c' t k.
          Ensures-bind (reuse_pairs env _ ps) _ t
            (reuse_pairs-find_row i x ps _ t apart.1 (
              subst (λ ds. find_row i ds ≡ some x) (sym k)
                (find_row-put_ne i (reused c old true) w.components (not_id c.id i apart.0) ∙ row)))
            (λ (last, artifacts) u l. record { holds = l }))

  PairRows-put :
      (c old : ComponentBuild) (ps : Pairs) (w t : World)
      → Apart c.id ps
      → t.components ≡ put_component_row (reused c old true) w.components
      → PairRows w ps
      → PairRows t ps
  PairRows-put c old [] w t apart e h = tt
  PairRows-put c old ((d, _) ∷ ps) w t apart e h = (
    subst (λ ds. find_row d.id ds ≡ some d) (sym e)
        (find_row-put_ne d.id (reused c old true) w.components apart.0 ∙ h.0),
    PairRows-put c old ps w t apart.1 e h.1,
  )

  reuse_pairs-RowsOf :
      (ps : Pairs) (m : ModuleBuild) (w : World)
      → Distinct ps
      → PairRows w ps
      → Ensures (λ _ t. RowsOf t ps) (λ _. Unit {0}) (reuse_pairs env m ps w)
  unfolding reuse_pairs put_module
  reuse_pairs-RowsOf [] m w distinct rows = record { holds = tt }
  reuse_pairs-RowsOf ((c, old) ∷ ps) m w distinct rows =
      Ensures-bind (reuse_component env c old true false) _ _ (reuse_component-row c old _)
        (λ c' t k.
          Ensures-bind (reuse_pairs env _ ps) _ t
            (Ensures-and (reuse_pairs env _ ps t)
              (reuse_pairs-find_row c.id (reused c old true) ps _ t distinct.0 (
                subst (λ ds. find_row c.id ds ≡ some (reused c old true)) (sym k)
                  (find_row-put_self (reused c old true) c w.components rows.0)))
              (reuse_pairs-RowsOf ps _ t distinct.1
                (PairRows-put c old ps w t distinct.0 k rows.1)))
            (λ (last, artifacts) u l. record { holds = l }))

  -- Where the answer is True, every component is reused.
  abbrev AllReused : Relation → List ComponentBuild → ModuleBuild × Bool → World → Type 0
  AllReused R cs (m, all_reused) t = all_reused ≡ true → All (IsReusedOrMacros R t) cs

  tag_pairs-AllReused :
      (R : Relation) (m : ModuleBuild) (cs : List ComponentBuild) (pairs : Option Pairs) (w : World)
      → CoversAll R cs pairs
      → HasDistinctIds cs
      → AreRows cs w.components
      → Ensures (AllReused R cs) (λ _. Unit {0}) (tag_pairs env m pairs w)
  unfolding call
  tag_pairs-AllReused R m cs none w h distinct rows = record { holds = λ e. absurd cc }
  tag_pairs-AllReused R m cs (some ps) w h distinct rows =
      Ensures-bind (reuse_pairs env m ps) _ w
        (reuse_pairs-RowsOf ps m w (covered-Distinct R cs ps h distinct)
          (covered-PairRows R w cs ps h rows))
        (λ (last, artifacts) t k. record { holds = λ _. covered-rows R t cs ps h k })

  -- Where the answer is True, an earlier module build was found, and every component is reused from
  -- it.
  abbrev ReusedFrom :
      World
      → ModuleBuild
      → Option ModuleBuild
      → List ComponentBuild
      → ModuleBuild × Bool
      → World
      → Type 0
  ReusedFrom start m found cs (m', all_reused) t =
      all_reused ≡ true
      → (previous : ModuleBuild) × (found ≡ some previous)
        × All (IsReusedOrMacros (IsAnswer m previous start) t) cs

  reuse_all-ReusedFrom :
      (m : ModuleBuild) (found : Option ModuleBuild) (t : World)
      → HasDistinctIds t.components
      → Ensures
          (ReusedFrom t m found (component_builds m t))
          (λ _. Unit {0})
          (reuse_all env (m, found) t)
  unfolding component_builds
  reuse_all-ReusedFrom m none t keys = record { holds = λ e. absurd cc }
  reuse_all-ReusedFrom m (some previous) t keys =
      let cs = component_builds m t in
      let R = IsAnswer m previous t in
      Ensures-bind (reusable_pairs env m previous cs) (tag_pairs env m) t
        (Ensures-and (reusable_pairs env m previous cs t)
          (reusable_pairs-Covers t m previous cs t (OnlyLogs-refl t))
          (Ensures-weaken {Q = λ _. OnlyLogs t} {F = λ _. Unit {0}} _
            (reusable_pairs-Logs env t m previous cs t (OnlyLogs-refl t)) (λ _ _ k. k) (λ _ _. tt)))
        (λ pairs u k.
          Ensures-weaken (tag_pairs env m pairs u)
            (tag_pairs-AllReused R m cs pairs u k.0 (HasDistinctIds-filter _ t.components keys)
              (subst (AreRows cs) (sym k.1.components) (AreRows-filter _ t.components keys)))
            (λ a v h e. (previous, refl, h e)) (λ _ h. h))

  remember-id :
      (m : ModuleBuild) (found : Option ModuleBuild) (w : World)
      → Ensures (λ (m', _) _. m'.id ≡ m.id) (λ _. Unit {0}) (remember env m found w)
  unfolding commit
  remember-id m none w = record { holds = refl }
  remember-id m (some n) w = record { holds = refl }

  found-id :
      (m : ModuleBuild) (found : Option ModuleBuild) (w : World)
      → Ensures (λ (m', _) _. m'.id ≡ m.id) (λ _. Unit {0}) (reused_or_found env m found w)
  found-id m (some n) w = record { holds = refl }
  found-id m none w = remember-id m (find_previous env m (env.base_modules m) w.modules) w

  module-id :
      (m : ModuleBuild) (w : World)
      → Ensures
          (λ (m', _) t. (m'.id ≡ m.id) × (t.components ≡ w.components))
          (λ _. Unit {0})
          (get_reusable_module env m w)
  unfolding get_reusable_module
  module-id m w = Ensures-and (get_reusable_module env m w) (found-id m (reused_module env m w) w) (
      Ensures-weaken {Q = λ _ t. t.components ≡ w.components} {F = λ _. Unit {0}} _
        (Ensures-of (SameBuilds w) _ (get_reusable_module-SameBuilds env m w))
        (λ _ _ k. k.components) (λ _ _. tt))

  same_builds :
      (m m' : ModuleBuild) (w t : World)
      → m'.id ≡ m.id
      → t.components ≡ w.components
      → component_builds m' t ≡ component_builds m w
  unfolding component_builds
  same_builds m m' w t e k = rw (e, k)

  -- What get_reusable_module gave, and the components that are reused from it.
  pub record IsReusedAs (m : ModuleBuild) (w t : World) : Type 0 where
    pub found : ModuleBuild
    pub previous : ModuleBuild
    pub start : World
    pub earlier : get_reusable_module env m w ≡ (ok (found, some previous), start)
    pub reused_rows :
        All (IsReusedOrMacros (IsAnswer found previous start) t) (component_builds m w)

  attempt-IsReusedAs :
      (m : ModuleBuild) (w : World)
      → HasDistinctIds w.components
      → Ensures
          (λ a t. a.1 ≡ true → IsReusedAs m w t)
          (λ _. Unit {0})
          (attempt_to_reuse_all_components env m w)
  unfolding attempt_to_reuse_all_components
  attempt-IsReusedAs m w keys =
      Ensures-bind (get_reusable_module env m) (reuse_all env) w
        (Ensures-and (get_reusable_module env m w) (module-id m w)
          (Ensures-outcome (get_reusable_module env m w)))
        (λ (m', found) t k.
          Ensures-weaken (reuse_all env (m', found) t)
            (reuse_all-ReusedFrom m' found t (subst HasDistinctIds (sym k.0.1) keys))
            (λ a u h e.
              let (previous, same, rows) = h e in
              record {
                found = m';
                previous = previous;
                start = t;
                earlier = k.1 ∙ ap (λ o. (ok (m', o), t)) same;
                reused_rows =
                    subst (All (IsReusedOrMacros (IsAnswer m' previous t) u))
                      (same_builds m m' w t k.0.0 k.0.1) rows;
              })
            (λ _ h. h))

  -- Where attempt_to_reuse_all_components returns True, get_reusable_module found an earlier
  -- module build, and each component of the module build is module-build-macros or has the row
  -- that reuse_component gives it, with the id, the task and the nvr, for the earlier component
  -- that get_reusable_component gives for its package in that module build, on the same rows. The
  -- primary keys are distinct.
  pub attempt_to_reuse_all_components-true :
      (m m' : ModuleBuild) (w : World)
      → HasDistinctIds w.components
      → (attempt_to_reuse_all_components env m w).0 ≡ ok (m', true)
      → IsReusedAs m w (attempt_to_reuse_all_components env m w).1
  attempt_to_reuse_all_components-true m m' w keys e =
      Ensures-ok (λ a t. a.1 ≡ true → IsReusedAs m w t) (λ _. Unit {0})
        (attempt_to_reuse_all_components env m w) (m', true) (attempt-IsReusedAs m w keys) e refl
