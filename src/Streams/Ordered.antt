-- ===== src/Streams/Ordered.antt =====
-- The order that `by_version_desc` gives, for module_build_service/common/models.py.
use fm_orchestrator.Common.{
  leb→le, count, ◌+◌, ℕ, ◌≤◌, ◌≡◌, refl, ◌∙◌, ap, Bool, ◌&&◌, all, All, All-map, List, [], ◌∷◌, leb,
  if◌then◌else◌, string_eq, nat_eq, arith, inl, inr, Bool-cases,
}
use native.Mathlib.Nat.{le_trans}
use fm_orchestrator.Streams.Latest.{StreamBuild, insert_desc, by_version_desc}

abbrev pub IsDescending : List StreamBuild → Type 0
IsDescending [] = Unit
IsDescending (b ∷ bs) = All (λ c. c.version ≤ b.version) bs × IsDescending bs

insert-All :
    (v : ℕ) (b : StreamBuild) (bs : List StreamBuild)
    → b.version ≤ v
    → All (λ c. c.version ≤ v) bs
    → All (λ c. c.version ≤ v) (insert_desc b bs)
unfolding insert_desc
insert-All v b [] h k = (h, tt)
insert-All v b (c ∷ bs) h k = ground (arith, insert-All v b bs h k.1)

insert-IsDescending :
    (b : StreamBuild) (bs : List StreamBuild) → IsDescending bs → IsDescending (insert_desc b bs)
unfolding insert_desc
insert-IsDescending b [] h = (tt, tt)
insert-IsDescending b (c ∷ bs) h = elim (Bool-cases (leb c.version b.version)) [
  | inl e ↦ rw e ((leb→le _ _ e, All-map _ _ bs (λ d le. le_trans le (leb→le _ _ e)) h.0), h)
  | inr e ↦ rw e (insert-All c.version b bs (ground arith) h.0, insert-IsDescending b bs h.1)
]

pub by_version_desc-IsDescending : (bs : List StreamBuild) → IsDescending (by_version_desc bs)
unfolding by_version_desc
by_version_desc-IsDescending [] = tt
by_version_desc-IsDescending (b ∷ bs) =
    insert-IsDescending b (by_version_desc bs) (by_version_desc-IsDescending bs)

all-insert :
    (p : StreamBuild → Bool) (b : StreamBuild) (bs : List StreamBuild)
    → all p (insert_desc b bs) ≡ (p b && all p bs)
unfolding insert_desc
all-insert p b [] = refl
all-insert p b (c ∷ bs) = ground (arith, all-insert p b bs)

pub all-by_version_desc :
    (p : StreamBuild → Bool) (bs : List StreamBuild) → all p (by_version_desc bs) ≡ all p bs
unfolding by_version_desc
all-by_version_desc p [] = refl
all-by_version_desc p (b ∷ bs) =
    all-insert p b (by_version_desc bs) ∙ ap (λ r. p b && r) (all-by_version_desc p bs)

count-insert :
    (p : StreamBuild → Bool) (b : StreamBuild) (bs : List StreamBuild)
    → count p (insert_desc b bs) ≡ count p (b ∷ bs)
unfolding insert_desc
count-insert p b [] = refl
count-insert p b (c ∷ bs) = ground (arith, count-insert p b bs)

pub count-by_version_desc :
    (p : StreamBuild → Bool) (bs : List StreamBuild) → count p (by_version_desc bs) ≡ count p bs
unfolding by_version_desc
count-by_version_desc p [] = refl
count-by_version_desc p (b ∷ bs) =
    count-insert p b (by_version_desc bs)
    ∙ ap (λ n. (if p b then 1 else 0) + n) (count-by_version_desc p bs)
