-- ===== src/Models/Table.antt =====
-- What a write to a row changes in the table of component builds.
use fm_orchestrator.Common.{
  HasDistinct, ℕ, ◌+◌, ◌≤◌, ◌≡◌, ◌≢◌, refl, Bool, Option, none, some, List, [], ◌∷◌, All, count,
  filter, if◌then◌else◌, nat_eq, nat_beq_iff, ◌==◌, arith,
}
use fm_orchestrator.Models.Rows.{ComponentBuild}
use fm_orchestrator.Models.Store.{put_component_row}

-- The row with a primary key.
unfoldable pub find_row : ℕ → List ComponentBuild → Option ComponentBuild
find_row i [] = none
find_row i (d ∷ ds) = if d.id == i then some d else find_row i ds

-- Each component of a list is the row with its key.
abbrev pub AreRows : List ComponentBuild → List ComponentBuild → Type 0
AreRows cs ds = All (λ c. find_row c.id ds ≡ some c) cs

-- No two of the components have one key.
abbrev pub HasDistinctIds : List ComponentBuild → Type 0
HasDistinctIds cs = HasDistinct (λ c. c.id) cs

pub find_row-put_self :
    (c d : ComponentBuild) (ds : List ComponentBuild)
    → find_row c.id ds ≡ some d
    → find_row c.id (put_component_row c ds) ≡ some c
unfolding find_row put_component_row
find_row-put_self c d [] h = cc
find_row-put_self c d (e ∷ ds) h =
    ground (arith, nat_beq_iff e.id c.id, nat_beq_iff c.id c.id, find_row-put_self c d ds)

pub find_row-put_ne :
    (i : ℕ) (c : ComponentBuild) (ds : List ComponentBuild)
    → i ≢ c.id
    → find_row i (put_component_row c ds) ≡ find_row i ds
unfolding find_row put_component_row
find_row-put_ne i c [] h = refl
find_row-put_ne i c (e ∷ ds) h = ground (arith, find_row-put_ne i c ds)

-- A write to a row moves a count by the difference between the two rows.
pub count-put :
    (p : ComponentBuild → Bool) (c d : ComponentBuild) (ds : List ComponentBuild)
    → find_row c.id ds ≡ some d
    → count p (put_component_row c ds) + (if p d then 1 else 0)
      ≡ count p ds + (if p c then 1 else 0)
unfolding find_row put_component_row
count-put p c d [] h = cc
count-put p c d (e ∷ ds) h = ground (arith, count-put p c d ds)

-- A write moves a count by one at most, and does not raise it where the new row does not count.
pub count-put-le :
    (p : ComponentBuild → Bool) (c : ComponentBuild) (ds : List ComponentBuild)
    → count p (put_component_row c ds) ≤ count p ds + (if p c then 1 else 0)
unfolding put_component_row
count-put-le p c [] = omega arith
count-put-le p c (e ∷ ds) = ground (arith, count-put-le p c ds)

-- The other components of a list stay the rows with their keys.
pub AreRows-put :
    (c : ComponentBuild) (cs ds : List ComponentBuild)
    → All (λ d. d.id ≢ c.id) cs
    → AreRows cs ds
    → AreRows cs (put_component_row c ds)
AreRows-put c [] ds h r = tt
AreRows-put c (d ∷ cs) ds h r =
    (rw (find_row-put_ne d.id c ds h.0) r.0, AreRows-put c cs ds h.1 r.1)

All-find_row :
    (p : ComponentBuild → Bool) (ds : List ComponentBuild) (e : ComponentBuild)
    → All (λ d. d.id ≢ e.id) ds
    → All (λ d. d.id ≢ e.id) (filter p ds)
All-find_row p [] e h = tt
All-find_row p (d ∷ ds) e h = ground (arith, All-find_row p ds e)

-- A selection from rows with distinct keys.
pub HasDistinctIds-filter :
    (p : ComponentBuild → Bool) (ds : List ComponentBuild)
    → HasDistinctIds ds
    → HasDistinctIds (filter p ds)
HasDistinctIds-filter p [] h = tt
HasDistinctIds-filter p (d ∷ ds) h =
    let rest = HasDistinctIds-filter p ds h.1 in let here = All-find_row p ds d h.0 in ground arith

AreRows-cons :
    (d : ComponentBuild) (cs ds : List ComponentBuild)
    → All (λ c. c.id ≢ d.id) cs
    → AreRows cs ds
    → AreRows cs (d ∷ ds)
unfolding find_row
AreRows-cons d [] ds h r = tt
AreRows-cons d (c ∷ cs) ds h r = let rest = AreRows-cons d cs ds h.1 r.1 in (ground arith, rest)

pub AreRows-filter :
    (p : ComponentBuild → Bool) (ds : List ComponentBuild)
    → HasDistinctIds ds
    → AreRows (filter p ds) ds
unfolding find_row
AreRows-filter p [] h = tt
AreRows-filter p (d ∷ ds) h =
    let rest =
      AreRows-cons d (filter p ds) ds (All-find_row p ds d h.0) (AreRows-filter p ds h.1) in
    ground (arith, nat_beq_iff d.id d.id)
