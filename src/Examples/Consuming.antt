-- ===== src/Examples/Consuming.antt =====
-- The theorem on scheduler/consumer.py applied to a handler that raises.
use fm_orchestrator.Common.{◌≡◌, refl, sym, ap, subst, ℕ, some, String, nat_eq}
use fm_orchestrator.Exec.{Exec, Error, ok, raised, raise, attribute_error}
use fm_orchestrator.Models.{BuildState, World}
use fm_orchestrator.Models.History.{module_row}
use fm_orchestrator.Events.{mbs_event_handler, run, run_within}
use fm_orchestrator.Handlers.{find_module}
use fm_orchestrator.Consumer.{mbs_module_state_change, map_message, process_message}
use fm_orchestrator.Consumer.Failure.{IsFailedFrom, process_message-IsFailedFrom}
use fm_orchestrator.Examples.Data.{new_module, store, services}

abbrev broken : ℕ → Exec World Unit
broken id = raise attribute_error

abbrev text : Error → String
text e = "AttributeError"

abbrev handler : Exec World Unit
handler = mbs_event_handler (broken 2)

waiting :
    map_message services broken broken text (mbs_module_state_change 2 BuildState.wait) store
    ≡ (ok (some handler, some new_module), store)
unfolding map_message find_module
waiting = refl

handler_run : handler store ≡ (raised attribute_error, store)
unfolding mbs_event_handler run run_within
handler_run = refl

process_message-IsFailedFrom_example :
    let after =
      process_message services broken broken text
        (mbs_module_state_change 2 BuildState.wait)
        store in
    (after.0 ≡ raised attribute_error)
    × IsFailedFrom (handler store).1 new_module "AttributeError" after.1
process_message-IsFailedFrom_example =
    process_message-IsFailedFrom services broken broken text
      (mbs_module_state_change 2 BuildState.wait) handler new_module new_module attribute_error
      store store waiting (ap (λ o. o.0) handler_run)
      (subst (λ o. module_row 2 o.1.saved.modules ≡ some new_module) (sym handler_run) refl)
