-- ===== src/Reuse/Source.antt =====
-- `get_reusable_module` of module_build_service/scheduler/reuse.py, and the hash of the build
-- context of module_build_service/common/models.py.
use fm_orchestrator.Common.{
  ℕ, Bool, true, false, not, ◌&&◌, Option, none, some, String, List, [], ◌∷◌, filter, any, leb,
  if◌then◌else◌, nat_eq, string_eq, option_eq, ◌==◌, is_some,
}
use fm_orchestrator.Exec.{Exec, Result, pure, modify, ◌>>◌}
use fm_orchestrator.Models.{
  BuildState, RebuildStrategy, ModuleBuild, World, put_module, commit, state_code,
}
use fm_orchestrator.Builder.{System}

-- A base module that the build may be reused across, by what `get_reusable_module` reads of it.
pub record BaseModule : Type 0 where
  pub name : String
  pub stream : String
  pub koji_tag_with_modules : Bool

pub record Nvr : Type 0 where
  pub name : String
  pub version : String
  pub release : String

-- What the code of this file takes from elsewhere: the configured backend, the base modules that
-- the resolver returns in its order, the builds that the Koji resolver finds, SHA-1 over JSON, and
-- kobo.rpmlib.parse_nvr.
pub record ReuseEnv : Type 0 where
  pub system : System
  pub base_modules : ModuleBuild → List BaseModule
  pub koji_modules : ModuleBuild → BaseModule → List ℕ
  pub context_hash : List (String × String) → String
  pub parse_nvr : Option String → Result Nvr

abbrev pub set_stream : String → String → List (String × String) → List (String × String)
set_stream name stream [] = []
set_stream name stream ((n, s) ∷ rest) =
    (n, if n == name then stream else s) ∷ set_stream name stream rest

abbrev pub is_changed_and_after : RebuildStrategy → Bool
is_changed_and_after RebuildStrategy.changed_and_after = true
is_changed_and_after _ = false

abbrev pub is_only_changed : RebuildStrategy → Bool
is_only_changed RebuildStrategy.only_changed = true
is_only_changed _ = false

-- The key of `order_by(time_completed.desc())`, where a missing time comes last, as in
-- SQLite.
abbrev completed_later : ModuleBuild → ModuleBuild → Bool
completed_later m n = elim m.time_completed [
  | none ↦ not (is_some n.time_completed)
  | some t ↦ elim n.time_completed [ none ↦ true | some u ↦ leb u t ]
]

-- The first of the rows in that order.
unfoldable pub latest : List ModuleBuild → Option ModuleBuild
latest [] = none
latest (m ∷ ms) = elim (latest ms) [
  | none ↦ some m
  | some n ↦ if completed_later m n then some m else some n
]

module _ (env : ReuseEnv) (m : ModuleBuild) where
  -- The filters that do not depend on the base module, and the one on the strategies.
  abbrev pub is_candidate : ModuleBuild → Bool
  is_candidate n =
      n.name == m.name
      && n.stream == m.stream
      && state_code n.state == state_code BuildState.ready
      && is_some n.scmurl
      && not (is_changed_and_after m.rebuild_strategy && is_only_changed n.rebuild_strategy)

  abbrev pub matches_koji : BaseModule → ModuleBuild → Bool
  matches_koji b n =
      any (λ i. i == n.id) (env.koji_modules m b)
      && n.build_context_no_bms == m.build_context_no_bms

  abbrev pub matches_context : BaseModule → ModuleBuild → Bool
  matches_context b n =
      n.build_context == some (env.context_hash (set_stream b.name b.stream m.mmd.buildrequires))

  -- One round of the loop over the base modules.
  abbrev pub find_for_base : BaseModule → List ModuleBuild → Option ModuleBuild
  find_for_base b rows =
      if b.koji_tag_with_modules
      then latest (filter (λ n. is_candidate n && matches_koji b n) rows)
      else if any (λ r. r.0 == b.name) m.mmd.buildrequires
      then latest (filter (λ n. is_candidate n && matches_context b n) rows)
      else none

  unfoldable pub find_previous : List BaseModule → List ModuleBuild → Option ModuleBuild
  unfolding latest
  find_previous [] rows = none
  find_previous (b ∷ bs) rows = elim (find_for_base b rows) [
    | none ↦ find_previous bs rows
    | some n ↦ some n
  ]

  -- module.reused_module
  abbrev pub reused_module : World → Option ModuleBuild
  reused_module w = elim m.reused_module_id [
    | none ↦ none
    | some id ↦ latest (filter (λ n. n.id == id) w.modules)
  ]

  -- The result comes with the module, which has the id of the row that was found.
  abbrev pub remember : Option ModuleBuild → Exec World (ModuleBuild × Option ModuleBuild)
  remember none = pure (m, none)
  remember (some n) =
      let m' = record m { reused_module_id = some n.id } in
      do modify (put_module m'); commit; pure (m', some n)

  abbrev pub reused_or_found : Option ModuleBuild → Exec World (ModuleBuild × Option ModuleBuild)
  reused_or_found none w = remember (find_previous (env.base_modules m) w.modules) w
  reused_or_found (some n) w = pure (m, some n) w

  unfoldable pub get_reusable_module : Exec World (ModuleBuild × Option ModuleBuild)
  unfolding find_previous put_module commit
  get_reusable_module w = reused_or_found (reused_module w) w
