-- ===== src/Models/Component.antt =====
-- The properties of ComponentBuild.
use fm_orchestrator.Common.{
  Bool, true, false, ◌&&◌, ◌||◌, Option, none, some, String, [], ◌++◌, ◌∷◌,
}
use fm_orchestrator.Exec.{Exec, modify, ◌>>◌}
use fm_orchestrator.Models.Rows.{KojiState, ComponentBuild, ModuleBuild}
use fm_orchestrator.Models.Store.{World, commit}

abbrev pub state_is_building : Option KojiState → Bool
state_is_building (some KojiState.building) = true
state_is_building _ = false

abbrev pub state_is_complete : Option KojiState → Bool
state_is_complete (some KojiState.complete) = true
state_is_complete _ = false

abbrev pub state_is_failed : Option KojiState → Bool
state_is_failed (some KojiState.failed) = true
state_is_failed _ = false

abbrev pub state_is_canceled : Option KojiState → Bool
state_is_canceled (some KojiState.canceled) = true
state_is_canceled _ = false

abbrev pub state_is_none : Option KojiState → Bool
state_is_none none = true
state_is_none (some _) = false

abbrev pub is_completed : ComponentBuild → Bool
is_completed c = state_is_complete c.state

abbrev pub is_building : ComponentBuild → Bool
is_building c = state_is_building c.state

abbrev pub is_failed : ComponentBuild → Bool
is_failed c = state_is_failed c.state

abbrev pub is_waiting_for_build : ComponentBuild → Bool
is_waiting_for_build c = state_is_none c.state

abbrev pub is_unbuilt : ComponentBuild → Bool
is_unbuilt c = is_waiting_for_build c || is_building c

abbrev pub is_tagged : ComponentBuild → Bool
is_tagged c = c.tagged && (c.tagged_in_final || c.build_time_only)

abbrev pub is_unsuccessful : ComponentBuild → Bool
is_unsuccessful c = state_is_failed c.state || state_is_canceled c.state

-- ComponentBuild.log_message and ModuleBuild.log_message, which commit.
unfoldable pub log_component_message : ComponentBuild → String → Exec World Unit
unfolding commit
log_component_message c text = do
  modify (λ w. record w {
    log_messages =
        w.log_messages
        ++ record { component_build_id = some c.id; module_build_id = c.module_id; message = text }
          ∷ [];
  })
  commit

unfoldable pub log_module_message : ModuleBuild → String → Exec World Unit
unfolding commit
log_module_message m text = do
  modify (λ w. record w {
    log_messages =
        w.log_messages
        ++ record { component_build_id = none; module_build_id = m.id; message = text } ∷ [];
  })
  commit
