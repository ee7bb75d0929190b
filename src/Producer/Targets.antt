-- ===== src/Producer/Targets.antt =====
-- `delete_old_koji_targets` of module_build_service/scheduler/producer.py.
use fm_orchestrator.Common.{
  ℕ, ◌+◌, ◌<◌, ◌≡◌, refl, sym, ◌∙◌, ap, Bool, true, not, ◌&&◌, ◌||◌, any, Option, none, some,
  String, List, [], ◌∷◌, ◌++◌, map, filter, first, All, ltb, ltb→lt, if◌then◌else◌, nat_eq,
  string_eq, option_eq, ◌==◌, ◌^^◌, starts_with, All-append,
}
use fm_orchestrator.Exec.{Exec, pure, raise, type_error, gets, for_each, ◌>>=◌}
use mathlib.Core.List.{append-nil, append_assoc, map-append}
use fm_orchestrator.Exec.Ensures.{Ensures, Ensures-if, Ensures-of, Ensures-always, Ensures-for_each}
use fm_orchestrator.Models.{BuildState, ModuleBuild, World, Call, call, state_code}
use fm_orchestrator.Builder.{System}
use fm_orchestrator.Producer.Cleanup.{is_koji}

-- A build target, as Koji lists it.
pub record Target : Type 0 where
  pub id : ℕ
  pub name : String
  pub dest_tag_name : String

-- The options base_module_names, koji_tag_prefixes and koji_target_delete_time, in seconds.
pub record TargetOptions : Type 0 where
  pub system : System
  pub base_module_names : List String
  pub koji_tag_prefixes : List String
  pub koji_target_delete_time : ℕ

abbrev pub is_unfinished : BuildState → Bool
is_unfinished s =
    (state_code s == state_code BuildState.init)
    || (state_code s == state_code BuildState.wait)
    || (state_code s == state_code BuildState.build)

module _ (options : TargetOptions) where
  -- The query for the module build of a target.
  abbrev pub is_of_target : Target → ModuleBuild → Bool
  is_of_target t m =
      (m.koji_tag == some t.dest_tag_name)
      && not (any (λ name. name == m.name) options.base_module_names)
      && not (is_unfinished m.state)

  abbrev pub has_allowed_prefix : Target → Bool
  has_allowed_prefix t = any (λ p. starts_with (p ^^ "-") t.name) options.koji_tag_prefixes

  -- The age of the module build; without a time of completion the difference raises.
  unfoldable pub delete_if_old : ℕ → Target → Option ℕ → Exec World Unit
  unfolding call
  delete_if_old now t none = raise type_error
  delete_if_old now t (some completed) =
      if ltb (completed + options.koji_target_delete_time) now
      then call (Call.delete_build_target t.id)
      else pure tt

  unfoldable pub delete_for_module : ℕ → Target → Option ModuleBuild → Exec World Unit
  unfolding delete_if_old starts_with
  delete_for_module now t none = pure tt
  delete_for_module now t (some m) =
      if has_allowed_prefix t then delete_if_old now t m.time_completed else pure tt

  -- The body of the loop.
  unfoldable pub delete_target : ℕ → Target → Exec World Unit
  unfolding delete_for_module
  delete_target now t = do
    m ← gets (λ w. first (filter (is_of_target t) w.modules))
    delete_for_module now t m

  -- The targets are those that Koji lists.
  unfoldable pub delete_old_koji_targets : List Target → Exec World Unit
  unfolding delete_target for_each
  delete_old_koji_targets targets =
      if is_koji options.system
      then (do now ← gets (λ w. w.now); for_each (delete_target now) targets)
      else pure tt

  -- Why a target may be deleted: its module build is finished, is no base module and completed
  -- longer ago than configured, and the name of the target has an allowed prefix.
  pub record IsRemovable (w : World) (t : Target) : Type 0 where
    pub owner : ModuleBuild
    pub found : first (filter (is_of_target t) w.modules) ≡ some owner
    pub prefix : has_allowed_prefix t ≡ true
    pub completed : ℕ
    pub was_completed : owner.time_completed ≡ some completed
    pub old : completed + options.koji_target_delete_time < w.now

  -- What a run of the loop may do: delete some of the targets, each of them removable.
  pub record DeletesOnly (w t : World) : Type 0 where
    pub deleted : List Target
    pub calls : t.calls ≡ w.calls ++ map (λ d. Call.delete_build_target d.id) deleted
    pub removable : All (IsRemovable w) deleted
    pub modules : t.modules ≡ w.modules

module _ (options : TargetOptions) (w : World) where
  -- Deleting one more target.
  delete-DeletesOnly :
      (t : Target) (s : World)
      → DeletesOnly options w s
      → IsRemovable options w t
      → DeletesOnly options w (call (Call.delete_build_target t.id) s).1
  unfolding call
  delete-DeletesOnly t s h k = record {
    deleted = h.deleted ++ t ∷ [];
    calls =
        ap (λ l. l ++ Call.delete_build_target t.id ∷ []) h.calls
        ∙ append_assoc w.calls (map (λ d. Call.delete_build_target d.id) h.deleted)
            (Call.delete_build_target t.id ∷ [])
        ∙ ap (λ l. w.calls ++ l) (sym (map-append _ h.deleted (t ∷ [])));
    removable = All-append (IsRemovable options w) h.deleted (t ∷ []) h.removable (k, tt);
    modules = h.modules;
  }

  delete_if_old-DeletesOnly :
      (t : Target) (m : ModuleBuild) (time : Option ℕ) (s : World)
      → first (filter (is_of_target options t) w.modules) ≡ some m
      → has_allowed_prefix options t ≡ true
      → m.time_completed ≡ time
      → DeletesOnly options w s
      → Ensures
          (λ _. DeletesOnly options w)
          (DeletesOnly options w)
          (delete_if_old options w.now t time s)
  unfolding delete_if_old
  delete_if_old-DeletesOnly t m none s found prefix e h = record { holds = h }
  delete_if_old-DeletesOnly t m (some completed) s found prefix e h =
      Ensures-if (ltb (completed + options.koji_target_delete_time) w.now) _ _ s
        (λ old. Ensures-of (DeletesOnly options w) _ (
          delete-DeletesOnly t s h (record {
            owner = m;
            found = found;
            prefix = prefix;
            completed = completed;
            was_completed = e;
            old = ltb→lt _ _ old;
          })))
        (λ _. record { holds = h })

  delete_for_module-DeletesOnly :
      (t : Target) (found : Option ModuleBuild) (s : World)
      → first (filter (is_of_target options t) w.modules) ≡ found
      → DeletesOnly options w s
      → Ensures
          (λ _. DeletesOnly options w)
          (DeletesOnly options w)
          (delete_for_module options w.now t found s)
  unfolding delete_for_module
  delete_for_module-DeletesOnly t none s e h = record { holds = h }
  delete_for_module-DeletesOnly t (some m) s e h =
      Ensures-if (has_allowed_prefix options t) _ _ s
        (λ prefix. delete_if_old-DeletesOnly t m m.time_completed s e prefix refl h)
        (λ _. record { holds = h })

  delete_target-DeletesOnly :
      (t : Target) (s : World)
      → DeletesOnly options w s
      → Ensures
          (λ _. DeletesOnly options w)
          (DeletesOnly options w)
          (delete_target options w.now t s)
  unfolding delete_target
  delete_target-DeletesOnly t s h =
      delete_for_module-DeletesOnly t (first (filter (is_of_target options t) s.modules)) s
        (ap (λ ms. first (filter (is_of_target options t) ms)) (sym h.modules)) h

  nothing_deleted : DeletesOnly options w w
  nothing_deleted = record {
    deleted = [];
    calls = sym (append-nil w.calls);
    removable = tt;
    modules = refl;
  }

  -- However delete_old_koji_targets ends, the calls that it made are deletions of targets, each
  -- of a target with an allowed prefix whose module build is in no state from "init" to "build",
  -- is no base module, and was completed longer ago than configured. No row of the module builds
  -- changes.
  pub delete_old_koji_targets-DeletesOnly :
      (targets : List Target) → DeletesOnly options w (delete_old_koji_targets options targets w).1
  unfolding delete_old_koji_targets
  delete_old_koji_targets-DeletesOnly targets = Ensures-always (DeletesOnly options w) _ (
      Ensures-if (is_koji options.system) _ _ w
        (λ _.
          Ensures-for_each (DeletesOnly options w) (delete_target options w.now)
            delete_target-DeletesOnly targets w nothing_deleted)
        (λ _. record { holds = nothing_deleted }))
