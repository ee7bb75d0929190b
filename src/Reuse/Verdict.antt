-- ===== src/Reuse/Verdict.antt =====
-- When `get_reusable_component` of module_build_service/scheduler/reuse.py finds a component: the
-- rule as the comments of that function tell it, independently of the order of its tests.
use fm_orchestrator.Common.{
  ℕ, ◌-◌, ◌≤◌, ◌<◌, ◌≡◌, ◌≢◌, ◌↔◌, true, ◌&&◌, some, String, List, [], ◌∷◌, filter, nat_eq,
  string_eq, option_eq, ◌==◌, nat_beq_iff, is_truthy, arith, inl, inr, Bool-cases, Option-cases,
  option_beq_iff,
}
use fm_orchestrator.Exec.{ok, Result-cases}
use fm_orchestrator.Models.{
  ModuleBuild, ComponentBuild, World, component_builds, log_component_message, log_module_message,
}
use fm_orchestrator.Reuse.Sets.{SameMembers, BatchAgrees, is_same_set_iff, same_batches_iff}
use fm_orchestrator.Reuse.{
  is_changed_and_after, rpm_arches, same_batches, from_component_name, is_usable, check_arches,
  check_batches, check_strategy, check_refs, check_previous, check_new, check_component, one,
}

-- The rows of a name in a module build, by the query for the row to reuse.
abbrev pub rows_named : String → ℕ → World → List ComponentBuild
rows_named name id w = filter (λ c. c.package_name == name && c.module_id == id) w.components

module _ (m : ModuleBuild) (name : String) (previous : ModuleBuild) (w : World) where
  -- Both modulemds list the component, for the same architectures, and the earlier module build
  -- has one row of that name, `c`.
  pub record ArchesAgree (c : ComponentBuild) : Type 0 where
    pub arches : List String
    pub old_arches : List String
    pub arches_listed : rpm_arches name m.mmd.rpm_arches ≡ ok arches
    pub old_arches_listed : rpm_arches name previous.mmd.rpm_arches ≡ ok old_arches
    pub same_arches : SameMembers arches old_arches
    pub one_row : rows_named name previous.id w ≡ c ∷ []

  one_row_of :
      (rows : List ComponentBuild) (c : ComponentBuild) → (one rows w).0 ≡ ok c → rows ≡ c ∷ []
  one_row_of [] c h = cc
  one_row_of (d ∷ []) c h = cc
  one_row_of (d ∷ e ∷ ds) c h = cc

  rows_agree :
      (new c : ComponentBuild) (arches old_arches : List String)
      → rpm_arches name m.mmd.rpm_arches ≡ ok arches
      → rpm_arches name previous.mmd.rpm_arches ≡ ok old_arches
      → (check_arches m name previous new w).0 ≡ ok (some c)
      → ArchesAgree c
  unfolding log_component_message
  rows_agree new c arches old_arches p q h = record {
    arches = arches;
    old_arches = old_arches;
    arches_listed = p;
    old_arches_listed = q;
    same_arches = (is_same_set_iff arches old_arches).0 (ground arith);
    one_row = one_row_of (rows_named name previous.id w) c (ground arith);
  }

  check_arches_sound :
      (new c : ComponentBuild)
      → (check_arches m name previous new w).0 ≡ ok (some c)
      → ArchesAgree c
  check_arches_sound new c h = elim (Result-cases (rpm_arches name m.mmd.rpm_arches)) [
    | inr (e, p) ↦ absurd (ground arith)
    | inl (a, p) ↦ elim (Result-cases (rpm_arches name previous.mmd.rpm_arches)) [
      | inr (e, q) ↦ absurd (ground arith)
      | inl (b, q) ↦ rows_agree new c a b p q h
    ]
  ]

  check_arches_complete :
      (new c : ComponentBuild)
      → ArchesAgree c
      → (check_arches m name previous new w).0 ≡ ok (some c)
  check_arches_complete new c h =
      rw (h.arches_listed, h.old_arches_listed)
        (rw ((is_same_set_iff h.arches h.old_arches).1 h.same_arches) (rw h.one_row))

  -- Under "changed-and-after" nothing that was built before the component may have changed.
  pub record HistoryAgrees (new prev : ComponentBuild) : Type 0 where
    pub same_batch : prev.batch ≡ new.batch
    pub same_macros : m.mmd.rpm_macros ≡ previous.mmd.rpm_macros
    -- Batch 1 holds module-build-macros alone, which is always built.
    pub earlier_batches :
        (k : ℕ)
        → 2 ≤ k
        → k < new.batch
        → BatchAgrees m.mmd previous.mmd (component_builds m w) (component_builds previous w) k

  -- Why a component can be reused.
  pub record IsReusable (c : ComponentBuild) : Type 0 where
    pub new : ComponentBuild
    pub prev : ComponentBuild
    pub new_row : from_component_name name m.id w ≡ some new
    pub prev_row : from_component_name name previous.id w ≡ some prev
    pub new_usable : (new.batch ≢ 0) × (is_truthy new.ref ≡ true)
    pub prev_usable : (prev.batch ≢ 0) × (is_truthy prev.ref ≡ true)
    pub same_commit : prev.ref ≡ new.ref
    pub history : is_changed_and_after m.rebuild_strategy ≡ true → HistoryAgrees new prev
    pub arches_agree : ArchesAgree c

  check_batches_sound :
      (new c : ComponentBuild)
      → (check_batches m name previous new w).0 ≡ ok (some c)
      → (same_batches m.mmd previous.mmd
            (component_builds m w)
            (component_builds previous w)
            2
            (new.batch - 2)
          ≡ ok true)
        × ArchesAgree c
  unfolding log_component_message
  check_batches_sound new c h = ground (arith, check_arches_sound new c)

  earlier_complete :
      (new prev : ComponentBuild)
      → HistoryAgrees new prev
      → same_batches m.mmd previous.mmd
          (component_builds m w)
          (component_builds previous w)
          2
          (new.batch - 2)
        ≡ ok true
  earlier_complete new prev h =
      (same_batches_iff m.mmd previous.mmd (component_builds m w) (component_builds previous w) 2
          (new.batch - 2)).1
        (λ k low high. h.earlier_batches k low (omega arith))

  parts :
      (new prev c : ComponentBuild)
      → is_changed_and_after m.rebuild_strategy ≡ true
      → (check_strategy m name previous new prev w).0 ≡ ok (some c)
      → (same_batches m.mmd previous.mmd
            (component_builds m w)
            (component_builds previous w)
            2
            (new.batch - 2)
          ≡ ok true)
        × ArchesAgree c
  unfolding log_component_message
  parts new prev c s h = ground (arith, s, check_batches_sound new c)

  history_sound :
      (new prev c : ComponentBuild)
      → is_changed_and_after m.rebuild_strategy ≡ true
      → (check_strategy m name previous new prev w).0 ≡ ok (some c)
      → HistoryAgrees new prev × ArchesAgree c
  unfolding log_component_message
  history_sound new prev c s h =
      let batches = nat_beq_iff prev.batch new.batch in
      let macros = option_beq_iff string_eq m.mmd.rpm_macros previous.mmd.rpm_macros in
      let (same, arches) = parts new prev c s h in
      (
        record {
          same_batch = ground (arith, s, batches);
          same_macros = ground (arith, s, macros);
          earlier_batches = λ k low high.
              (same_batches_iff m.mmd previous.mmd (component_builds m w)
                  (component_builds previous w) 2 (new.batch - 2)).0
                same k low (omega arith);
        },
        arches,
      )

  check_strategy_sound :
      (new prev c : ComponentBuild)
      → (check_strategy m name previous new prev w).0 ≡ ok (some c)
      → (is_changed_and_after m.rebuild_strategy ≡ true → HistoryAgrees new prev) × ArchesAgree c
  unfolding log_component_message
  check_strategy_sound new prev c h = elim (Bool-cases (is_changed_and_after m.rebuild_strategy)) [
    | inl s ↦ let both = history_sound new prev c s h in ((λ _. both.0), both.1)
    | inr s ↦ ((λ t. absurd (ground arith)), check_arches_sound new c (ground arith))
  ]

  usable_fields :
      (c : ComponentBuild) → is_usable (some c) ≡ true → (c.batch ≢ 0) × (is_truthy c.ref ≡ true)
  usable_fields c h = (λ e. ground (arith, nat_beq_iff c.batch 0), ground arith)

  check_refs_sound :
      (new prev c : ComponentBuild)
      → (check_refs m name previous new prev w).0 ≡ ok (some c)
      → (prev.ref ≡ new.ref)
        × (is_changed_and_after m.rebuild_strategy ≡ true → HistoryAgrees new prev)
        × ArchesAgree c
  unfolding log_component_message
  check_refs_sound new prev c h = elim (Bool-cases (prev.ref == new.ref)) [
    | inr e ↦ absurd (ground arith)
    | inl e ↦
        let rest = check_strategy_sound new prev c (ground arith) in
        ((option_beq_iff string_eq prev.ref new.ref).0 e, rest.0, rest.1)
  ]

  previous_sound :
      (new prev c : ComponentBuild)
      → from_component_name name m.id w ≡ some new
      → is_usable (some new) ≡ true
      → from_component_name name previous.id w ≡ some prev
      → (check_previous m name previous new (some prev) w).0 ≡ ok (some c)
      → IsReusable c
  unfolding log_component_message
  previous_sound new prev c found usable found_prev h = elim (Bool-cases (is_usable (some prev))) [
    | inr e ↦ absurd (ground arith)
    | inl e ↦
        let rest = check_refs_sound new prev c (ground arith) in
        record {
          new = new;
          prev = prev;
          new_row = found;
          prev_row = found_prev;
          new_usable = usable_fields new usable;
          prev_usable = usable_fields prev e;
          same_commit = rest.0;
          history = rest.1;
          arches_agree = rest.2;
        }
  ]

  new_sound :
      (new c : ComponentBuild)
      → from_component_name name m.id w ≡ some new
      → (check_new m name previous (some new) w).0 ≡ ok (some c)
      → IsReusable c
  unfolding log_component_message log_module_message
  new_sound new c found h = elim (Bool-cases (is_usable (some new))) [
    | inr e ↦ absurd (ground arith)
    | inl e ↦ elim (Option-cases (from_component_name name previous.id w)) [
      | inl p ↦ absurd (ground arith)
      | inr (prev, p) ↦ previous_sound new prev c found e p (ground arith)
    ]
  ]

  check_component_sound :
      (c : ComponentBuild) → (check_component m name previous w).0 ≡ ok (some c) → IsReusable c
  unfolding check_component
  check_component_sound c h = elim (Option-cases (from_component_name name m.id w)) [
    | inl p ↦ absurd (ground arith)
    | inr (new, p) ↦ new_sound new c p (ground arith)
  ]

  is_usable_of :
      (c : ComponentBuild) → (c.batch ≢ 0) × (is_truthy c.ref ≡ true) → is_usable (some c) ≡ true
  is_usable_of c h = ground (arith, nat_beq_iff c.batch 0)

  check_strategy_complete :
      (new prev c : ComponentBuild)
      → (is_changed_and_after m.rebuild_strategy ≡ true → HistoryAgrees new prev)
      → ArchesAgree c
      → (check_strategy m name previous new prev w).0 ≡ ok (some c)
  check_strategy_complete new prev c history arches =
      elim (Bool-cases (is_changed_and_after m.rebuild_strategy)) [
        | inr s ↦ rw s (check_arches_complete new c arches)
        | inl s ↦
            let h = history s in
            rw (s, (nat_beq_iff prev.batch new.batch).1 h.same_batch)
              (rw
                ((option_beq_iff string_eq m.mmd.rpm_macros previous.mmd.rpm_macros).1
                  h.same_macros)
                (rw (earlier_complete new prev h) (check_arches_complete new c arches)))
      ]

  check_component_complete :
      (c : ComponentBuild) → IsReusable c → (check_component m name previous w).0 ≡ ok (some c)
  unfolding check_component
  check_component_complete c r = rw r.new_row (
      rw (is_usable_of r.new r.new_usable, r.prev_row)
        (rw
          (
            is_usable_of r.prev r.prev_usable,
            (option_beq_iff string_eq r.prev.ref r.new.ref).1 r.same_commit,
          )
          (check_strategy_complete r.new r.prev c r.history r.arches_agree)))

  pub check_component_iff :
      (c : ComponentBuild) → ((check_component m name previous w).0 ≡ ok (some c)) ↔ IsReusable c
  check_component_iff c = (check_component_sound c, check_component_complete c)
