-- ===== src/Models/Keys.antt =====
-- The rows of the module builds that a query finds, where the primary keys are distinct.
use fm_orchestrator.Common.{
  HasDistinct, sym, ◌∙◌, subst, ◌⊎◌, if◌then◌else◌, false, ◌==◌, nat_eq, ℕ, ◌≡◌, ◌≢◌, refl, Bool,
  true, none, some, String, List, [], ◌∷◌, All, filter, nat_eq, nat_beq_iff, arith, inl, inr,
  Bool-cases,
}
use fm_orchestrator.Exec.{ok, raised, runtime_error}
use fm_orchestrator.Models.Rows.{BuildState, ModuleBuild}
use fm_orchestrator.Models.Store.{World}
use fm_orchestrator.Models.Module.{get_by_tag, is_in_flight, at_most_one, tag_of}
use fm_orchestrator.Models.History.{module_row, IsRow}

-- No two module builds have one key.
abbrev pub HasDistinctKeys : List ModuleBuild → Type 0
HasDistinctKeys ms = HasDistinct (λ m. m.id) ms

pub module_row-id :
    (i : ℕ) (ms : List ModuleBuild) (n : ModuleBuild) → module_row i ms ≡ some n → n.id ≡ i
module_row-id i [] n h = absurd cc
module_row-id i (m ∷ ms) n h = ground (arith, nat_beq_iff m.id i, module_row-id i ms n)

-- What a query on the state of one row tells of a selected row.
pub record IsSelected (p : ModuleBuild → Bool) (ms : List ModuleBuild) (n : ModuleBuild)
    : Type 0 where
  pub holds : p n ≡ true
  pub row : module_row n.id ms ≡ some n

pub filter-ne :
    (p : ModuleBuild → Bool) (ms : List ModuleBuild) (m : ModuleBuild)
    → All (λ n. n.id ≢ m.id) ms
    → All (λ n. n.id ≢ m.id) (filter p ms)
filter-ne p [] m h = tt
filter-ne p (n ∷ ms) m h = ground (arith, filter-ne p ms m)

row_cons :
    (m n : ModuleBuild) (ms : List ModuleBuild)
    → n.id ≢ m.id
    → module_row n.id ms ≡ some n
    → module_row n.id (m ∷ ms) ≡ some n
row_cons m n ms h k = ground (arith, nat_beq_iff m.id n.id)

row_here : (m : ModuleBuild) (ms : List ModuleBuild) → module_row m.id (m ∷ ms) ≡ some m
row_here m ms = ground (arith, nat_beq_iff m.id m.id)

IsSelected-cons :
    (p : ModuleBuild → Bool) (m : ModuleBuild) (ns ms : List ModuleBuild)
    → All (λ n. n.id ≢ m.id) ns
    → All (IsSelected p ms) ns
    → All (IsSelected p (m ∷ ms)) ns
IsSelected-cons p m [] ms h k = tt
IsSelected-cons p m (n ∷ ns) ms h k = (
  record { holds = k.0.holds; row = row_cons m n ms h.0 k.0.row },
  IsSelected-cons p m ns ms h.1 k.1,
)

pub filter-IsSelected :
    (p : ModuleBuild → Bool) (ms : List ModuleBuild)
    → HasDistinctKeys ms
    → All (IsSelected p ms) (filter p ms)
filter-IsSelected p [] h = tt
filter-IsSelected p (m ∷ ms) h =
    let rest =
      IsSelected-cons p m (filter p ms) ms (filter-ne p ms m h.0) (filter-IsSelected p ms h.1) in
    elim (Bool-cases (p m)) [
      | inl e ↦ rw e (record { holds = e; row = row_here m ms }, rest)
      | inr e ↦ rw e rest
    ]

-- What `get_by_tag` finds: nothing, or the row of a build in the "build" state, or a RuntimeError.
pub data Found (tag_name : String) (w : World) : Type 0 where
  nothing : get_by_tag tag_name w ≡ (ok none, w) → Found tag_name w
  one_row :
      (n : ModuleBuild)
      → get_by_tag tag_name w ≡ (ok (some n), w)
      → n.state ≡ BuildState.build
      → IsRow n w
      → Found tag_name w
  many : get_by_tag tag_name w ≡ (raised runtime_error, w) → Found tag_name w

in_flight-state :
    (tag : String) (n : ModuleBuild) → is_in_flight tag n ≡ true → n.state ≡ BuildState.build
in_flight-state tag n h = ground arith

Found-rows :
    (tag_name : String) (w : World) (ms : List ModuleBuild)
    → get_by_tag tag_name w ≡ at_most_one ms w
    → All (IsSelected (is_in_flight (tag_of tag_name)) w.modules) ms
    → Found tag_name w
Found-rows tag_name w [] e h = nothing e
Found-rows tag_name w (n ∷ []) e h =
    one_row n e (in_flight-state (tag_of tag_name) n h.0.holds) h.0.row
Found-rows tag_name w (n ∷ o ∷ ms) e h = many e

pub get_by_tag-Found :
    (tag_name : String) (w : World) → HasDistinctKeys w.modules → Found tag_name w
unfolding get_by_tag
get_by_tag-Found tag_name w keys =
    Found-rows tag_name w (filter (is_in_flight (tag_of tag_name)) w.modules) refl
      (filter-IsSelected (is_in_flight (tag_of tag_name)) w.modules keys)

pub HasDistinctKeys-filter :
    (p : ModuleBuild → Bool) (ms : List ModuleBuild)
    → HasDistinctKeys ms
    → HasDistinctKeys (filter p ms)
HasDistinctKeys-filter p [] h = tt
HasDistinctKeys-filter p (m ∷ ms) h =
    let rest = HasDistinctKeys-filter p ms h.1 in
    let apart = filter-ne p ms m h.0 in
    elim (Bool-cases (p m)) [ inl e ↦ rw e (apart, rest) | inr e ↦ rw e rest ]

row_cases :
    (i : ℕ) (m n : ModuleBuild) (ms : List ModuleBuild)
    → module_row i (m ∷ ms) ≡ some n
    → (m ≡ n) ⊎ (module_row i ms ≡ some n)
row_cases i m n ms h = elim (Bool-cases (m.id == i)) [
  | inl e ↦ inl (same_row m n (sym (here i m ms e) ∙ h))
  | inr e ↦ inr (sym (there i m ms e) ∙ h)
]
  where
    same_row : (a b : ModuleBuild) → some a ≡ some b → a ≡ b
    same_row a b e = cc

    here :
        (i : ℕ) (m : ModuleBuild) (ms : List ModuleBuild)
        → (m.id == i) ≡ true
        → module_row i (m ∷ ms) ≡ some m
    here i m ms e = rw e

    there :
        (i : ℕ) (m : ModuleBuild) (ms : List ModuleBuild)
        → (m.id == i) ≡ false
        → module_row i (m ∷ ms) ≡ module_row i ms
    there i m ms e = rw e

module _ (P : ModuleBuild → Type 0) (m : ModuleBuild) (ms : List ModuleBuild) where
  head_of : (b : Bool) → b ≡ true → All P (if b then m ∷ ms else ms) → P m
  head_of true e h = h.0
  head_of false e h = absurd cc

  tail_of : (b : Bool) → All P (if b then m ∷ ms else ms) → All P ms
  tail_of true h = h.1
  tail_of false h = h

-- What holds of every selected row holds of a row that the test selects.
pub selected-row :
    (P : ModuleBuild → Type 0) (p : ModuleBuild → Bool) (i : ℕ) (ms : List ModuleBuild)
    (n : ModuleBuild)
    → module_row i ms ≡ some n
    → p n ≡ true
    → All P (filter p ms)
    → P n
selected-row P p i [] n row e h = absurd cc
selected-row P p i (m ∷ ms) n row e h = elim (row_cases i m n ms row) [
  | inl same ↦
      subst P same (head_of P m (filter p ms) (p m) (subst (λ k. p k ≡ true) (sym same) e) h)
  | inr later ↦ selected-row P p i ms n later e (tail_of P m (filter p ms) (p m) h)
]
