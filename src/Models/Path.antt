-- ===== src/Models/Path.antt =====
-- The life cycle as an abstract machine, and what its runs tell of the table of traces: the states
-- of a row's trace are those that the machine visits.
use fm_orchestrator.Common.{◌≡◌, sym, ◌∙◌, ap, subst, List, [], ◌∷◌, ◌++◌, map}
use mathlib.Core.List.{append-nil, append_assoc, map-append}
use fm_orchestrator.Models.Rows.{BuildState, ModuleBuild}
use fm_orchestrator.Models.History.{EdgeRelation, History, start, edit, step}

-- The visited states, the last of them at the end.
pub data Visits (R : BuildState → BuildState → Type 0) (a : BuildState)
    : List BuildState → BuildState → Type 0 where
  here : Visits R a [] a
  onward :
      (ss : List BuildState) (b c : BuildState)
      → Visits R a ss b
      → R b c
      → Visits R a (ss ++ c ∷ []) c

abbrev pub trace_states : ModuleBuild → List BuildState
trace_states m = map (λ t. t.state) m.trace

-- The row `n` is what the machine makes of the row `m`, and its trace has the states on the way.
pub record Refines (R : BuildState → BuildState → Type 0) (m n : ModuleBuild) : Type 0 where
  pub states : List BuildState
  pub visits : Visits R m.state states n.state
  pub traced : trace_states n ≡ trace_states m ++ states

module _ (R : BuildState → BuildState → Type 0) where
  abbrev pub every_row : EdgeRelation
  every_row id s t = R s t

  pub History-Refines : (m n : ModuleBuild) → History every_row m n → Refines R m n
  History-Refines m n start = record {
    states = [];
    visits = here;
    traced = sym (append-nil (trace_states m));
  }
  History-Refines m n (edit o _ h e) =
      let k = History-Refines m o h in
      record {
        states = k.states;
        visits = subst (Visits R m.state k.states) (sym e.same_state) k.visits;
        traced = ap (map (λ t. t.state)) e.same_trace ∙ k.traced;
      }
  History-Refines m n (step o _ h e) =
      let k = History-Refines m o h in
      let (t, grown, entered) = e.traced in
      record {
        states = k.states ++ n.state ∷ [];
        visits = onward k.states o.state n.state k.visits e.edge;
        traced =
            ap (map (λ t. t.state)) grown
            ∙ map-append (λ t. t.state) o.trace (t ∷ [])
            ∙ ap (λ l. l ++ t.state ∷ []) k.traced
            ∙ append_assoc (trace_states m) k.states (t.state ∷ [])
            ∙ ap (λ s. trace_states m ++ (k.states ++ s ∷ [])) entered;
      }
