-- ===== src/Producer/Tags.antt =====
-- `sync_koji_build_tags` of module_build_service/scheduler/producer.py.
use fm_orchestrator.Common.{
  ℕ, ◌+◌, ◌*◌, ◌≡◌, refl, sym, ◌∙◌, ap, subst, Bool, true, false, not, ◌&&◌, any, concat_map,
  fold_each-concat_map, All, inl, inr, Bool-cases, Option, none, some, String, List, [], ◌∷◌, ◌++◌,
  filter, ltb, if◌then◌else◌, nat_eq, string_eq, ◌==◌, ◌^^◌,
}
use fm_orchestrator.Exec.{
  Exec, Result, ok, raised, value_error, type_error, pure, raise, gets, for_each, resume, ◌>>=◌,
  ◌>>◌,
}
use mathlib.Core.List.{append-nil, append_assoc}
use fm_orchestrator.Exec.Loops.{for_each-ok, for_each-fold, for_each-Keeps}
use fm_orchestrator.Models.{
  BuildState, KojiState, ModuleBuild, ComponentBuild, World, Event, Delayed, delay, current_batch,
  is_tagged, state_code, component_builds, has_state,
}
use fm_orchestrator.Builder.{System}
use fm_orchestrator.Producer.Cleanup.{is_koji}

-- The query of the task.
abbrev pub is_overdue : ℕ → ModuleBuild → Bool
is_overdue now m =
    ltb (m.time_modified + 10 * 60) now && (state_code m.state == state_code BuildState.build)

abbrev pub contains : String → List String → Bool
contains tag tags = any (λ t. t == tag) tags

abbrev pub tagged_message : String → ComponentBuild → Delayed
tagged_message tag c = Delayed.handler (Event.tagged "internal:sync_koji_build_tags" tag c.nvr)

-- The two tests on the tags that Koji lists. Where the module build has no tag, the first fails
-- and the concatenation that the second starts with raises.
unfoldable pub send_tags : Option String → List String → ComponentBuild → Exec World Unit
unfolding delay
send_tags none tags c = raise type_error
send_tags (some tag) tags c = do
  if not c.tagged_in_final && contains tag tags then delay (tagged_message tag c) else pure tt
  if not c.tagged && contains (tag ^^ "-build") tags
      then delay (tagged_message (tag ^^ "-build") c)
      else pure tt

-- What Koji answers to listTags, as names.
module _ (list_tags : Option String → List String) where
  unfoldable pub sync_component : ModuleBuild → ComponentBuild → Exec World Unit
  unfolding send_tags
  sync_component m c = if is_tagged c then pure tt else send_tags m.koji_tag (list_tags c.nvr) c

  unfoldable pub sync_module : ModuleBuild → Exec World Unit
  unfolding sync_component current_batch for_each
  sync_module m = do
    complete ← current_batch m (some KojiState.complete)
    for_each (sync_component m) complete

  unfoldable pub sync_koji_build_tags : System → Exec World Unit
  unfolding sync_module for_each
  sync_koji_build_tags system =
      if is_koji system
      then (do
        builds ← gets (λ w. filter (is_overdue w.now) w.modules)
        for_each sync_module builds)
      else pure tt

  -- What the task sends for a component.
  abbrev pub missing : Option String → ComponentBuild → List Delayed
  missing none c = []
  missing (some tag) c =
      if is_tagged c
      then []
      else (if not c.tagged_in_final && contains tag (list_tags c.nvr)
          then tagged_message tag c ∷ []
          else [])
        ++ (if not c.tagged && contains (tag ^^ "-build") (list_tags c.nvr)
            then tagged_message (tag ^^ "-build") c ∷ []
            else [])

  abbrev pub complete_components : ModuleBuild → List ComponentBuild → List ComponentBuild
  complete_components m cs =
      filter (λ c. has_state (some KojiState.complete) c && c.batch == m.batch)
        (filter (λ c. c.module_id == m.id) cs)

  abbrev pub missing_in : List ComponentBuild → ModuleBuild → List Delayed
  missing_in cs m = concat_map (missing m.koji_tag) (complete_components m cs)

  -- The builds before the first one that is in no batch.
  abbrev pub before_unbatched : List ModuleBuild → List ModuleBuild
  before_unbatched [] = []
  before_unbatched (m ∷ ms) =
      let rest = before_unbatched ms in if m.batch == 0 then [] else m ∷ rest

  appended : World → List Delayed → World
  appended s l = record s { broker = s.broker ++ l }

  two_tests :
      (a b : Bool) (x y : Delayed) (s : World)
      → ((if a then delay x else pure tt) >> (if b then delay y else pure tt)) s
        ≡ (ok tt, appended s ((if a then x ∷ [] else []) ++ (if b then y ∷ [] else [])))
  unfolding delay appended
  two_tests true true x y s =
      ap (λ l. (ok tt, record s { broker = l })) (append_assoc s.broker (x ∷ []) (y ∷ []))
  two_tests true false x y s = refl
  two_tests false true x y s = refl
  two_tests false false x y s =
      ap (λ l. (ok tt, record s { broker = l })) (sym (append-nil s.broker))

  sync_component-effect :
      (tag : String) (m : ModuleBuild) (c : ComponentBuild) (s : World)
      → m.koji_tag ≡ some tag
      → sync_component m c s ≡ (ok tt, appended s (missing m.koji_tag c))
  unfolding sync_component send_tags appended
  sync_component-effect tag m c s e = rw e (elim (Bool-cases (is_tagged c)) [
    | inl h ↦ rw h (ap (λ l. (ok tt, record s { broker = l })) (sym (append-nil s.broker)))
    | inr h ↦ rw h (
        two_tests (not c.tagged_in_final && contains tag (list_tags c.nvr))
          (not c.tagged && contains (tag ^^ "-build") (list_tags c.nvr)) (tagged_message tag c)
          (tagged_message (tag ^^ "-build") c) s)
  ])

  -- What a part of the run leaves, where its builds have a tag: the exception of the first build
  -- that is in no batch, and the messages for the builds before it.
  record Sends (cs : List ComponentBuild) (ms : List ModuleBuild) (s : World)
      (o : Result Unit × World) : Type 0 where
    returned : o.0 ≡ (if any (λ m. m.batch == 0) ms then raised value_error else ok tt)
    broker : o.1.broker ≡ s.broker ++ concat_map (missing_in cs) (before_unbatched ms)
    same_components : o.1.components ≡ s.components

  loop-broker :
      (tag : String) (m : ModuleBuild) (cs : List ComponentBuild) (s : World)
      → m.koji_tag ≡ some tag
      → ((for_each (sync_component m) cs s).0 ≡ ok tt)
        × ((for_each (sync_component m) cs s).1.broker
            ≡ s.broker ++ concat_map (missing m.koji_tag) cs)
        × ((for_each (sync_component m) cs s).1.components ≡ s.components)
  unfolding appended
  loop-broker tag m cs s e =
      let ret = λ (c : ComponentBuild) (u : World) (_ : Unit {0}).
        ap (λ o. o.0) (sync_component-effect tag m c u e) in
      (
        for_each-ok (λ _. Unit {0}) (sync_component m) ret (λ _ _ _. tt) cs s tt,
        for_each-fold (λ _. Unit {0}) (sync_component m) ret (λ _ _ _. tt) (λ u. u.broker)
              (λ c l. l ++ missing m.koji_tag c)
              (λ c u _. ap (λ o. o.1.broker) (sync_component-effect tag m c u e)) cs s tt
            ∙ fold_each-concat_map (missing m.koji_tag) cs s.broker,
        for_each-Keeps (λ u. u.components ≡ s.components) (sync_component m) (λ c u _. ret c u tt)
            (λ c u k. ap (λ o. o.1.components) (sync_component-effect tag m c u e) ∙ k) cs s refl,
      )

  unbatched :
      (m : ModuleBuild) (s : World)
      → (m.batch == 0) ≡ true
      → sync_module m s ≡ (raised value_error, s)
  unfolding sync_module current_batch
  unbatched m s e = rw e refl

  batched :
      (m : ModuleBuild) (s : World)
      → (m.batch == 0) ≡ false
      → sync_module m s ≡ for_each (sync_component m) (complete_components m s.components) s
  unfolding sync_module current_batch component_builds
  batched m s e = rw e refl

  abbrev HasTag : ModuleBuild → Type 0
  HasTag m = (tag : String) × (m.koji_tag ≡ some tag)

  continue :
      (o : Result Unit × World) (k : Exec World Unit)
      → o.0 ≡ ok tt
      → resume o.0 (λ _. k) o.1 ≡ k o.1
  continue o k e = rw e refl

  loop-Sends :
      (cs : List ComponentBuild) (ms : List ModuleBuild) (s : World)
      → All HasTag ms
      → s.components ≡ cs
      → Sends cs ms s (for_each sync_module ms s)
  unfolding for_each
  loop-Sends cs [] s tags same = record {
    returned = refl;
    broker = sym (append-nil s.broker);
    same_components = refl;
  }
  loop-Sends cs (m ∷ ms) s tags same = elim (Bool-cases (m.batch == 0)) [
    | inl e ↦
        subst (Sends cs (m ∷ ms) s)
          (sym (ap (λ o. resume o.0 (λ _. for_each sync_module ms) o.1) (unbatched m s e)))
          (record {
            returned = rw e refl;
            broker = rw e (sym (append-nil s.broker));
            same_components = refl;
          })
    | inr e ↦
        let here = loop-broker tags.0.0 m (complete_components m s.components) s tags.0.1 in
        let t = (for_each (sync_component m) (complete_components m s.components) s).1 in
        let rest = loop-Sends cs ms t tags.1 (here.2 ∙ same) in
        subst (Sends cs (m ∷ ms) s)
          (sym (
            ap (λ o. resume o.0 (λ _. for_each sync_module ms) o.1) (batched m s e)
            ∙ continue (for_each (sync_component m) (complete_components m s.components) s)
                (for_each sync_module ms) here.0))
          (record {
            returned = rw e rest.returned;
            broker = rw e (
                rest.broker
                ∙ ap (λ l. l ++ concat_map (missing_in cs) (before_unbatched ms)) here.1
                ∙ append_assoc s.broker (missing_in s.components m)
                    (concat_map (missing_in cs) (before_unbatched ms))
                ∙ ap
                    (λ ds.
                      s.broker
                      ++ (missing_in ds m ++ concat_map (missing_in cs) (before_unbatched ms)))
                    same);
            same_components = rest.same_components ∙ here.2;
          })
  ]

  module _ (system : System) (w : World) where
    -- The builds that the task looks at.
    abbrev pub overdue : List ModuleBuild
    overdue = filter (is_overdue w.now) w.modules

    -- On Koji, sync_koji_build_tags raises a ValueError if one of the builds that it looks at is
    -- in no batch, and returns otherwise. The messages that it sends are those for the builds
    -- before the first such build: for each complete component of the current batch, one for the
    -- tag and one for the build tag, where Koji lists the tag and the row of the component does
    -- not show it. The builds behind are left out. The builds that it looks at have a tag.
    pub sync_koji_build_tags-stops :
        is_koji system ≡ true
        → All HasTag overdue
        → ((sync_koji_build_tags system w).0
            ≡ (if any (λ m. m.batch == 0) overdue then raised value_error else ok tt))
          × ((sync_koji_build_tags system w).1.broker
              ≡ w.broker ++ concat_map (missing_in w.components) (before_unbatched overdue))
    unfolding sync_koji_build_tags
    sync_koji_build_tags-stops koji tags =
        let h = loop-Sends w.components overdue w tags refl in rw koji (h.returned, h.broker)
