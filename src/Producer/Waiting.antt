-- ===== src/Producer/Waiting.antt =====
-- `process_waiting_module_builds` and `nudge_module_builds_in_state` of
-- module_build_service/scheduler/producer.py.
use fm_orchestrator.Common.{
  ℕ, ◌+◌, ◌*◌, ◌<◌, ◌≡◌, refl, ◌∙◌, ap, Bool, false, not, ◌&&◌, List, [], ◌∷◌, ◌++◌, map, filter,
  ltb, if◌then◌else◌, nat_eq, ◌==◌, fold_each, fold_each-filter, fold_each-append, filter-filter,
  arith,
}
use fm_orchestrator.Exec.{Exec, ok, pure, gets, modify, for_each, ◌>>=◌, ◌>>◌}
use fm_orchestrator.Exec.Loops.{for_each-ok, for_each-fold}
use fm_orchestrator.Models.{
  BuildState, ModuleBuild, World, Delayed, put_module, put_module_row, commit, delay, state_code,
}
use fm_orchestrator.Models.Keys.{HasDistinctKeys}
use fm_orchestrator.Models.Update.{update_where, put_modules-update, filter-update_where}

-- ModuleBuild.by_state
abbrev pub is_in_state : BuildState → ModuleBuild → Bool
is_in_state state m = state_code m.state == state_code state

-- The difference of the times is below the threshold; it is not taken, so that it cannot stop at 0.
abbrev pub is_recent : ℕ → ℕ → ModuleBuild → Bool
is_recent older_than_minutes now m = ltb now (m.time_modified + older_than_minutes * 60)

abbrev pub touched : ℕ → ModuleBuild → ModuleBuild
touched now m = record m { time_modified = now }

-- The body of the loop.
unfoldable pub nudge : BuildState → ℕ → ℕ → ModuleBuild → Exec World Unit
unfolding put_module commit delay
nudge state older_than_minutes now m =
    if is_recent older_than_minutes now m
    then pure tt
    else modify (put_module (touched now m)) >> commit >> delay (Delayed.module_change m.id state)

unfoldable pub nudge_module_builds_in_state : BuildState → ℕ → Exec World Unit
unfolding nudge for_each
nudge_module_builds_in_state state older_than_minutes = do
  builds ← gets (λ w. filter (is_in_state state) w.modules)
  now ← gets (λ w. w.now)
  for_each (nudge state older_than_minutes now) builds

unfoldable pub process_waiting_module_builds : Exec World Unit
unfolding nudge_module_builds_in_state
process_waiting_module_builds = do
  nudge_module_builds_in_state BuildState.init 10
  nudge_module_builds_in_state BuildState.wait 10

module _ (state : BuildState) (minutes : ℕ) where
  -- The builds that get a nudge.
  abbrev pub is_due : ℕ → ModuleBuild → Bool
  is_due now m = is_in_state state m && not (is_recent minutes now m)

  nudge-ok : (now : ℕ) (m : ModuleBuild) (w : World) → (nudge state minutes now m w).0 ≡ ok tt
  unfolding nudge
  nudge-ok now m w = ground arith

  nudge-modules :
      (now : ℕ) (m : ModuleBuild) (w : World)
      → (nudge state minutes now m w).1.modules ≡ (
          if not (is_recent minutes now m)
          then put_module_row (touched now m) w.modules
          else w.modules)
  unfolding nudge put_module commit delay
  nudge-modules now m w = ground arith

  nudge-broker :
      (now : ℕ) (m : ModuleBuild) (w : World)
      → (nudge state minutes now m w).1.broker ≡ (
          if not (is_recent minutes now m)
          then w.broker ++ Delayed.module_change m.id state ∷ []
          else w.broker)
  unfolding nudge put_module commit delay
  nudge-broker now m w = ground arith

  not_due : (now : ℕ) → 0 < minutes → (m : ModuleBuild) → is_due now (touched now m) ≡ false
  not_due now h m = ground arith

  module _ (w : World) where
    -- What a run leaves: the builds that were due have the present time, each is handed to its
    -- handler once, in the order of the table, and none is due.
    pub record AreNudged (t : World) : Type 0 where
      pub modules : t.modules ≡ update_where (is_due w.now) (touched w.now) w.modules
      pub broker :
          t.broker
          ≡ w.broker
            ++ map (λ m. Delayed.module_change m.id state) (filter (is_due w.now) w.modules)
      pub quiet : filter (is_due w.now) t.modules ≡ []

    loop-modules :
        (ms : List ModuleBuild) (s : World)
        → (for_each (nudge state minutes w.now) ms s).1.modules
          ≡ fold_each
              (λ m. put_module_row (touched w.now m))
              (filter (λ m. not (is_recent minutes w.now m)) ms)
              s.modules
    loop-modules ms s =
        for_each-fold (λ _. Unit {0}) (nudge state minutes w.now) (λ m s _. nudge-ok w.now m s)
          (λ _ _ _. tt) (λ s. s.modules)
          (λ m ns.
            if not (is_recent minutes w.now m) then put_module_row (touched w.now m) ns else ns)
          (λ m s _. nudge-modules w.now m s) ms s tt
        ∙ fold_each-filter (λ m. not (is_recent minutes w.now m))
            (λ m. put_module_row (touched w.now m)) ms s.modules

    loop-broker :
        (ms : List ModuleBuild) (s : World)
        → (for_each (nudge state minutes w.now) ms s).1.broker
          ≡ s.broker
            ++ map
                (λ m. Delayed.module_change m.id state)
                (filter (λ m. not (is_recent minutes w.now m)) ms)
    loop-broker ms s =
        for_each-fold (λ _. Unit {0}) (nudge state minutes w.now) (λ m s _. nudge-ok w.now m s)
          (λ _ _ _. tt) (λ s. s.broker)
          (λ m ds.
            if not (is_recent minutes w.now m)
            then ds ++ Delayed.module_change m.id state ∷ []
            else ds)
          (λ m s _. nudge-broker w.now m s) ms s tt
        ∙ fold_each-filter (λ m. not (is_recent minutes w.now m))
            (λ m ds. ds ++ Delayed.module_change m.id state ∷ []) ms s.broker
        ∙ fold_each-append (λ m. Delayed.module_change m.id state)
            (filter (λ m. not (is_recent minutes w.now m)) ms) s.broker

    -- nudge_module_builds_in_state returns. Each build in the state that was not modified for the
    -- given minutes, at least one, is handed to the handler of its state once, in the order of
    -- the table, and gets the present time; no other build changes, and a run at the same time
    -- would find no build that is due. The keys are distinct.
    pub nudge_module_builds_in_state-AreNudged :
        0 < minutes
        → HasDistinctKeys w.modules
        → ((nudge_module_builds_in_state state minutes w).0 ≡ ok tt)
          × AreNudged (nudge_module_builds_in_state state minutes w).1
    unfolding nudge_module_builds_in_state
    nudge_module_builds_in_state-AreNudged positive keys = (
      for_each-ok (λ _. Unit {0}) (nudge state minutes w.now) (λ m s _. nudge-ok w.now m s)
          (λ _ _ _. tt) (filter (is_in_state state) w.modules) w tt,
      record {
        modules = all_modules;
        broker =
            loop-broker (filter (is_in_state state) w.modules) w
            ∙ ap (λ l. w.broker ++ map (λ m. Delayed.module_change m.id state) l) due;
        quiet =
            ap (filter (is_due w.now)) all_modules
            ∙ filter-update_where (is_due w.now) (touched w.now) (not_due w.now positive) w.modules;
      },
    )
      where
        due :
            filter (λ m. not (is_recent minutes w.now m)) (filter (is_in_state state) w.modules)
            ≡ filter (is_due w.now) w.modules
        due = filter-filter (is_in_state state) (λ m. not (is_recent minutes w.now m)) w.modules

        all_modules :
            (nudge_module_builds_in_state state minutes w).1.modules
            ≡ update_where (is_due w.now) (touched w.now) w.modules
        all_modules =
            loop-modules (filter (is_in_state state) w.modules) w
            ∙ ap (λ l. fold_each (λ m. put_module_row (touched w.now m)) l w.modules) due
            ∙ put_modules-update (touched w.now) (λ m. refl) (is_due w.now) w.modules keys
