-- ===== src/Models/History.antt =====
-- How a row of the module builds may change: the history of one row, from edits that keep its
-- state and its trace, and steps of `ModuleBuild.transition`.
use fm_orchestrator.Common.{
  All, HasDistinct, ℕ, ◌≡◌, ◌≢◌, refl, sym, ◌∙◌, subst, false, Option, some, String, List, [], ◌∷◌,
  ◌++◌, filter, first, nat_eq, nat_beq_iff, ◌==◌, arith, ◌⊎◌, inl, inr, Bool-cases,
}
use fm_orchestrator.Exec.{Exec}
use fm_orchestrator.Exec.Ensures.{Ensures, Ensures-of, Ensures-weaken}
use fm_orchestrator.Models.Rows.{BuildState, FailureType, ModuleBuild, Trace}
use fm_orchestrator.Models.Store.{World, put_module_row, put_module}
use fm_orchestrator.Models.Module.{transition, transitioned, count_transition}

-- Which changes of state are allowed for the row with a key.
abbrev pub EdgeRelation : Type 1
EdgeRelation = ℕ → BuildState → BuildState → Type 0

-- An edit of other columns.
pub record IsEdit (m n : ModuleBuild) : Type 0 where
  pub same_id : n.id ≡ m.id
  pub same_state : n.state ≡ m.state
  pub same_trace : n.trace ≡ m.trace

-- What `transition` does to the columns of the life cycle.
pub record IsStep (E : EdgeRelation) (m n : ModuleBuild) : Type 0 where
  pub same_id : n.id ≡ m.id
  pub edge : E m.id m.state n.state
  pub traced : (t : Trace) × (n.trace ≡ m.trace ++ t ∷ []) × (t.state ≡ n.state)

pub data History (E : EdgeRelation) (m : ModuleBuild) : ModuleBuild → Type 0 where
  start : History E m m
  edit : (n o : ModuleBuild) → History E m n → IsEdit n o → History E m o
  step : (n o : ModuleBuild) → History E m n → IsStep E n o → History E m o

-- The row with a primary key.
abbrev pub module_row : ℕ → List ModuleBuild → Option ModuleBuild
module_row i ms = first (filter (λ m. m.id == i) ms)

pub module_row-put_self :
    (n o : ModuleBuild) (ms : List ModuleBuild)
    → module_row n.id ms ≡ some o
    → module_row n.id (put_module_row n ms) ≡ some n
unfolding put_module_row
module_row-put_self n o [] h = cc
module_row-put_self n o (m ∷ ms) h =
    ground (arith, nat_beq_iff m.id n.id, nat_beq_iff n.id n.id, module_row-put_self n o ms)

pub module_row-put_ne :
    (i : ℕ) (n : ModuleBuild) (ms : List ModuleBuild)
    → i ≢ n.id
    → module_row i (put_module_row n ms) ≡ module_row i ms
unfolding put_module_row
module_row-put_ne i n [] h = refl
module_row-put_ne i n (m ∷ ms) h = ground (arith, module_row-put_ne i n ms)

not_same : (a b : ℕ) → (a == b) ≡ false → a ≢ b
not_same a b h = ground (arith, nat_beq_iff a b)

All-put :
    (i : ℕ) (n : ModuleBuild) (ms : List ModuleBuild)
    → All (λ o. o.id ≢ i) ms
    → All (λ o. o.id ≢ i) (put_module_row n ms)
unfolding put_module_row
All-put i n [] h = tt
All-put i n (m ∷ ms) h = ground (arith, nat_beq_iff m.id n.id, All-put i n ms)

-- An assignment to a row keeps the keys distinct.
pub put-HasDistinct :
    (n : ModuleBuild) (ms : List ModuleBuild)
    → HasDistinct (λ m. m.id) ms
    → HasDistinct (λ m. m.id) (put_module_row n ms)
unfolding put_module_row
put-HasDistinct n [] h = tt
put-HasDistinct n (m ∷ ms) h = elim (Bool-cases (m.id == n.id)) [
  | inl e ↦ rw e (subst (λ j. All (λ o. o.id ≢ j) ms) ((nat_beq_iff m.id n.id).0 e) h.0, h.1)
  | inr e ↦ rw e (All-put m.id n ms h.0, put-HasDistinct n ms h.1)
]

-- The keys are distinct, and the row with the key `i` has a history from `m`.
pub record Follows (E : EdgeRelation) (i : ℕ) (m : ModuleBuild) (w : World) : Type 0 where
  pub current : ModuleBuild
  pub row : module_row i w.modules ≡ some current
  pub past : History E m current
  pub keys : HasDistinct (λ n. n.id) w.modules

abbrev pub IsRow : ModuleBuild → World → Type 0
IsRow n w = module_row n.id w.modules ≡ some n

pub record Tracks (E : EdgeRelation) (i : ℕ) (m n : ModuleBuild) (w : World) : Type 0 where
  pub follows : Follows E i m w
  pub is_row : IsRow n w

abbrev pub Moves : EdgeRelation → ModuleBuild → ModuleBuild → Type 0
Moves E n o = IsEdit n o ⊎ IsStep E n o

Moves-id : (E : EdgeRelation) (n o : ModuleBuild) → Moves E n o → o.id ≡ n.id
Moves-id E n o (inl e) = e.same_id
Moves-id E n o (inr e) = e.same_id

pub extend : (E : EdgeRelation) (m n o : ModuleBuild) → History E m n → Moves E n o → History E m o
extend E m n o h (inl e) = edit n o h e
extend E m n o h (inr e) = step n o h e

pub some_injective : (a b : ModuleBuild) → some a ≡ some b → a ≡ b
some_injective a b h = cc

module _ (E : EdgeRelation) (i : ℕ) (m n o : ModuleBuild) (w w' : World) where
  put-IsRow : Tracks E i m n w → o.id ≡ n.id → w'.modules ≡ put_module_row o w.modules → IsRow o w'
  put-IsRow h same wrote =
      subst (λ ms. module_row o.id ms ≡ some o) (sym wrote)
        (module_row-put_self o n w.modules (rw same h.is_row))

  put-keys :
      Tracks E i m n w
      → w'.modules ≡ put_module_row o w.modules
      → HasDistinct (λ k. k.id) w'.modules
  put-keys h wrote =
      subst (HasDistinct (λ k. k.id)) (sym wrote) (put-HasDistinct o w.modules h.follows.keys)

  put-Follows-self :
      Tracks E i m n w
      → Moves E n o
      → w'.modules ≡ put_module_row o w.modules
      → n.id ≡ i
      → Follows E i m w'
  put-Follows-self h move wrote e = record {
    current = o;
    row =
        subst (λ j. module_row j w'.modules ≡ some o) (Moves-id E n o move ∙ e)
          (put-IsRow h (Moves-id E n o move) wrote);
    past =
        extend E m n o
          (subst (History E m)
            (some_injective h.follows.current n
              (sym h.follows.row ∙ subst (λ j. module_row j w.modules ≡ some n) e h.is_row))
            h.follows.past)
          move;
    keys = put-keys h wrote;
  }

  put-Follows-ne :
      Tracks E i m n w
      → Moves E n o
      → w'.modules ≡ put_module_row o w.modules
      → i ≢ o.id
      → Follows E i m w'
  put-Follows-ne h move wrote e = record {
    current = h.follows.current;
    row =
        subst (λ ms. module_row i ms ≡ some h.follows.current) (sym wrote)
          (module_row-put_ne i o w.modules e ∙ h.follows.row);
    past = h.follows.past;
    keys = put-keys h wrote;
  }

  pub put-Tracks :
      Tracks E i m n w → Moves E n o → w'.modules ≡ put_module_row o w.modules → Tracks E i m o w'
  put-Tracks h move wrote = record {
    follows = elim (Bool-cases (n.id == i)) [
      | inl e ↦ put-Follows-self h move wrote ((nat_beq_iff n.id i).0 e)
      | inr e ↦
          put-Follows-ne h move wrote
            (λ same. not_same n.id i e (sym (Moves-id E n o move) ∙ sym same))
    ];
    is_row = put-IsRow h (Moves-id E n o move) wrote;
  }

-- A store with the same rows of the module builds.
pub Follows-keep :
    (E : EdgeRelation) (i : ℕ) (m : ModuleBuild) (w w' : World)
    → w'.modules ≡ w.modules
    → Follows E i m w
    → Follows E i m w'
Follows-keep E i m w w' e h = record {
  current = h.current;
  row = subst (λ ms. module_row i ms ≡ some h.current) (sym e) h.row;
  past = h.past;
  keys = subst (HasDistinct (λ n. n.id)) (sym e) h.keys;
}

pub Tracks-keep :
    (E : EdgeRelation) (i : ℕ) (m n : ModuleBuild) (w w' : World)
    → w'.modules ≡ w.modules
    → Tracks E i m n w
    → Tracks E i m n w'
Tracks-keep E i m n w w' e h = record {
  follows = Follows-keep E i m w w' e h.follows;
  is_row = subst (λ ms. module_row n.id ms ≡ some n) (sym e) h.is_row;
}

pub transitioned-IsStep :
    (E : EdgeRelation) (n : ModuleBuild) (s : BuildState) (reason : Option String) (now : ℕ)
    → E n.id n.state s
    → IsStep E n (transitioned n s reason now)
unfolding transitioned
transitioned-IsStep E n s reason now edge = record {
  same_id = refl;
  edge = edge;
  traced = (record { state_time = now; state = s; state_reason = reason }, refl, refl);
}

count-modules :
    (s : BuildState) (f : FailureType) (w : World) → (count_transition s f w).modules ≡ w.modules
count-modules s f w = ground arith

pub transition-modules :
    (n : ModuleBuild) (s : BuildState) (reason : Option String) (f : FailureType) (w : World)
    → (transition n s reason f w).1.modules
      ≡ put_module_row (transitioned n s reason w.now) w.modules
unfolding transition put_module
transition-modules n s reason f w =
    ground (arith, count-modules s f (put_module (transitioned n s reason w.now) w))

pub transition-Tracks :
    (E : EdgeRelation) (i : ℕ) (m n : ModuleBuild) (s : BuildState) (reason : Option String)
    (f : FailureType) (w : World)
    → E n.id n.state s
    → Tracks E i m n w
    → Ensures (Tracks E i m) (Follows E i m) (transition n s reason f w)
unfolding transition
transition-Tracks E i m n s reason f w edge h = record {
  holds =
      put-Tracks E i m n (transitioned n s reason w.now) w (transition n s reason f w).1 h
        (inr (transitioned-IsStep E n s reason w.now edge)) (transition-modules n s reason f w);
}

-- Code that changes no row of the module builds.
pub Tracks-kept :
    {A : Type 0} (E : EdgeRelation) (i : ℕ) (m n : ModuleBuild) (e : Exec World A) (w : World)
    → (e w).1.modules ≡ w.modules
    → Tracks E i m n w
    → Ensures (λ _. Tracks E i m n) (Follows E i m) (e w)
Tracks-kept E i m n e w kept h =
    Ensures-weaken (e w) (Ensures-of (Tracks E i m n) (e w) (Tracks-keep E i m n w (e w).1 kept h))
      (λ _ _ k. k) (λ _ k. k.follows)

History-id : (E : EdgeRelation) (m n : ModuleBuild) → History E m n → n.id ≡ m.id
History-id E m n start = refl
History-id E m n (edit o _ h e) = e.same_id ∙ History-id E m o h
History-id E m n (step o _ h e) = e.same_id ∙ History-id E m o h

-- A state that the row did not have before was reached by an allowed change of its state.
pub History-entered :
    (E : EdgeRelation) (m n : ModuleBuild) (s : BuildState)
    → History E m n
    → n.state ≡ s
    → m.state ≢ s
    → (t : BuildState) × E m.id t s
History-entered E m n s start e ne = absurd (ne e)
History-entered E m n s (edit o _ h d) e ne = History-entered E m o s h (sym d.same_state ∙ e) ne
History-entered E m n s (step o _ h d) e ne = (
  o.state,
  subst (λ x. E m.id o.state x) e (subst (λ j. E j o.state n.state) (History-id E m o h) d.edge),
)
