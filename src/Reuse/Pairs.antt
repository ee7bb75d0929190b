-- ===== src/Reuse/Pairs.antt =====
-- The pairs of components of `attempt_to_reuse_all_components` in
-- module_build_service/scheduler/reuse.py.
use fm_orchestrator.Common.{
  ℕ, ◌≡◌, ◌≢◌, sym, subst, true, ◌⊎◌, inl, inr, Option, none, some, List, [], ◌∷◌, All, string_eq,
  Option,
}
use fm_orchestrator.Models.{ComponentBuild, World}
use fm_orchestrator.Models.Table.{find_row, AreRows, HasDistinctIds}
use fm_orchestrator.Reuse.{reused}

abbrev pub Pairs : Type 0
Pairs = List (ComponentBuild × ComponentBuild)

-- What the earlier component of a pair has to be for the component.
abbrev pub Relation : Type 1
Relation = ComponentBuild → ComponentBuild → Type 0

module _ (R : Relation) where
  -- Every component but module-build-macros is paired, in the order of the components.
  abbrev pub Covers : List ComponentBuild → Pairs → Type 0
  Covers [] ps = ps ≡ []
  Covers (c ∷ cs) ps =
      ((c.package_name ≡ "module-build-macros") × Covers cs ps)
      ⊎ ((old : ComponentBuild) × (rest : Pairs) × R c old
          × (ps ≡ (c, old) ∷ rest)
          × Covers cs rest)

  abbrev pub CoversAll : List ComponentBuild → Option Pairs → Type 0
  CoversAll cs none = Unit
  CoversAll cs (some ps) = Covers cs ps

  -- The component has the row that `reuse_component` gives it for such an earlier component.
  abbrev pub IsReused : World → ComponentBuild → Type 0
  IsReused t c =
      (old : ComponentBuild) × R c old × (find_row c.id t.components ≡ some (reused c old true))

  abbrev pub IsReusedOrMacros : World → ComponentBuild → Type 0
  IsReusedOrMacros t c = (c.package_name ≡ "module-build-macros") ⊎ IsReused t c

abbrev pub RowsOf : World → Pairs → Type 0
RowsOf t ps = All (λ (c, old). find_row c.id t.components ≡ some (reused c old true)) ps

pub covered-rows :
    (R : Relation) (t : World) (cs : List ComponentBuild) (ps : Pairs)
    → Covers R cs ps
    → RowsOf t ps
    → All (IsReusedOrMacros R t) cs
covered-rows R t [] ps h k = tt
covered-rows R t (c ∷ cs) ps (inl (macros, h)) k = (inl macros, covered-rows R t cs ps h k)
covered-rows R t (c ∷ cs) ps (inr (old, rest, r, e, h)) k =
    let k' = subst (RowsOf t) e k in (inr (old, r, k'.0), covered-rows R t cs rest h k'.1)

-- Distinct keys, and none of them is `i`.
abbrev pub Apart : ℕ → Pairs → Type 0
Apart i ps = All (λ (c, _). c.id ≢ i) ps

abbrev pub Distinct : Pairs → Type 0
Distinct [] = Unit
Distinct ((c, _) ∷ ps) = Apart c.id ps × Distinct ps

abbrev pub PairRows : World → Pairs → Type 0
PairRows w ps = All (λ (c, _). find_row c.id w.components ≡ some c) ps

pub covered-Apart :
    (R : Relation) (i : ℕ) (cs : List ComponentBuild) (ps : Pairs)
    → Covers R cs ps
    → All (λ d. d.id ≢ i) cs
    → Apart i ps
covered-Apart R i [] ps h k = subst (Apart i) (sym h) tt
covered-Apart R i (c ∷ cs) ps (inl (_, h)) k = covered-Apart R i cs ps h k.1
covered-Apart R i (c ∷ cs) ps (inr (old, rest, r, e, h)) k =
    subst (Apart i) (sym e) (k.0, covered-Apart R i cs rest h k.1)

pub covered-Distinct :
    (R : Relation) (cs : List ComponentBuild) (ps : Pairs)
    → Covers R cs ps
    → HasDistinctIds cs
    → Distinct ps
covered-Distinct R [] ps h k = subst Distinct (sym h) tt
covered-Distinct R (c ∷ cs) ps (inl (_, h)) k = covered-Distinct R cs ps h k.1
covered-Distinct R (c ∷ cs) ps (inr (old, rest, r, e, h)) k =
    subst Distinct (sym e) (covered-Apart R c.id cs rest h k.0, covered-Distinct R cs rest h k.1)

pub covered-PairRows :
    (R : Relation) (w : World) (cs : List ComponentBuild) (ps : Pairs)
    → Covers R cs ps
    → AreRows cs w.components
    → PairRows w ps
covered-PairRows R w [] ps h k = subst (PairRows w) (sym h) tt
covered-PairRows R w (c ∷ cs) ps (inl (_, h)) k = covered-PairRows R w cs ps h k.1
covered-PairRows R w (c ∷ cs) ps (inr (old, rest, r, e, h)) k =
    subst (PairRows w) (sym e) (k.0, covered-PairRows R w cs rest h k.1)
