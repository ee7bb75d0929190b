-- ===== src/Submission/Order.antt =====
-- Component builds in ascending batches, for module_build_service/scheduler/submit.py.
use fm_orchestrator.Common.{ℕ, ◌≤◌, ◌≡◌, refl, sym, ◌∙◌, ap, Option, some, List, [], ◌∷◌, ◌++◌}
use native.Mathlib.Nat.{le_trans}
use mathlib.Core.List.{append-nil, append_assoc}
use fm_orchestrator.Submission.Mmd.{PlannedBuild, Plan}

-- The batches of the builds ascend from the first bound to the second.
abbrev pub AreWithin : ℕ → List PlannedBuild → ℕ → Type 0
AreWithin lo [] hi = lo ≤ hi
AreWithin lo (b ∷ bs) hi = (k : ℕ) × (b.batch ≡ some k) × (lo ≤ k) × AreWithin k bs hi

pub AreWithin-lower :
    (lo lo' hi : ℕ) (bs : List PlannedBuild) → lo' ≤ lo → AreWithin lo bs hi → AreWithin lo' bs hi
AreWithin-lower lo lo' hi [] le h = le_trans le h
AreWithin-lower lo lo' hi (b ∷ bs) le (k, e, l, h) = (k, e, le_trans le l, h)

pub AreWithin-append :
    (lo mid hi : ℕ) (as1 bs : List PlannedBuild)
    → AreWithin lo as1 mid
    → AreWithin mid bs hi
    → AreWithin lo (as1 ++ bs) hi
AreWithin-append lo mid hi [] bs h k = AreWithin-lower mid lo hi bs h k
AreWithin-append lo mid hi (b ∷ as1) bs (n, e, l, h) k =
    (n, e, l, AreWithin-append n mid hi as1 bs h k)

-- A part of the run added builds, the batches of which ascend from the bound to the one that it
-- gives back.
pub record Adds (lo : ℕ) (s : Plan) (o : Option ℕ) (t : Plan) : Type 0 where
  pub last : ℕ
  pub returned : o ≡ some last
  pub added : List PlannedBuild
  pub builds : t.builds ≡ s.builds ++ added
  pub within : AreWithin lo added last

pub Adds-nothing : (lo b : ℕ) (s t : Plan) → lo ≤ b → t.builds ≡ s.builds → Adds lo s (some b) t
Adds-nothing lo b s t h e = record {
  last = b;
  returned = refl;
  added = [];
  builds = e ∙ sym (append-nil s.builds);
  within = h;
}

pub Adds-lower :
    (lo lo' : ℕ) (s t : Plan) (o : Option ℕ) → lo' ≤ lo → Adds lo s o t → Adds lo' s o t
Adds-lower lo lo' s t o le h = record {
  last = h.last;
  returned = h.returned;
  added = h.added;
  builds = h.builds;
  within = AreWithin-lower lo lo' h.last h.added le h.within;
}

pub Adds-trans :
    (lo : ℕ) (s t u : Plan) (o p : Option ℕ) (h : Adds lo s o t) → Adds h.last t p u → Adds lo s p u
Adds-trans lo s t u o p h k = record {
  last = k.last;
  returned = k.returned;
  added = h.added ++ k.added;
  builds = k.builds ∙ ap (λ l. l ++ k.added) h.builds ∙ append_assoc s.builds h.added k.added;
  within = AreWithin-append lo h.last k.last h.added k.added h.within k.within;
}
