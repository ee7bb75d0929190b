-- ===== src/Streams/Greatest.antt =====
-- The loop of `get_last_builds_in_stream_version_lte` in module_build_service/common/models.py
-- against the builds of the greatest version of each stream.
use fm_orchestrator.Common.{
  count, All-filter, ℕ, ◌≤◌, ◌≡◌, refl, sym, ◌∙◌, ap, subst, Bool, true, false, not, ◌&&◌, ◌||◌,
  all, All, All-map, Option, none, some, String, List, [], ◌∷◌, filter, leb, string_eq, nat_eq,
  ◌==◌, eq_iff, nat_beq_iff, arith, inl, inr, Bool-cases, Option-cases,
}
use fm_orchestrator.Models.{BuildState}
use fm_orchestrator.Streams.Ordered.{
  IsDescending, by_version_desc-IsDescending, all-by_version_desc, count-by_version_desc,
}
use fm_orchestrator.Streams.Latest.{
  is_candidate_build, get_last_builds_in_stream_version_lte, StreamBuild, ns, seen_version,
  latest_of, by_version_desc,
}

-- No build of the list that has the same name and stream has a greater version.
abbrev pub is_greatest : List StreamBuild → StreamBuild → Bool
is_greatest bs b = all (λ c. not (ns c == ns b) || leb c.version b.version) bs

filter-cong :
    {A : Type 0} (p q : A → Bool) (xs : List A)
    → All (λ x. p x ≡ q x) xs
    → filter p xs ≡ filter q xs
filter-cong p q [] h = refl
filter-cong p q (x ∷ xs) h = rw (h.0, filter-cong p q xs h.1) refl

-- The test of the loop, in terms of what was seen.
abbrev passes : Option ℕ → List StreamBuild → StreamBuild → Bool
passes none bs b = is_greatest bs b
passes (some v) bs b = v == b.version

abbrev is_kept : List (String × ℕ) → List StreamBuild → StreamBuild → Bool
is_kept seen bs b = passes (seen_version (ns b) seen) bs b

head-is_greatest :
    (b : StreamBuild) (bs : List StreamBuild)
    → All (λ c. c.version ≤ b.version) bs
    → is_greatest bs b ≡ true
head-is_greatest b [] h = refl
head-is_greatest b (c ∷ bs) h = ground (arith, head-is_greatest b bs h.1)

-- A stream that was seen in a greater or equal version.
seen_cong :
    (seen : List (String × ℕ)) (b c : StreamBuild) (bs : List StreamBuild) (v : ℕ)
    → seen_version (ns b) seen ≡ some v
    → is_kept seen bs c ≡ is_kept seen (b ∷ bs) c
seen_cong seen b c bs v e = elim (Option-cases (seen_version (ns c) seen)) [
  | inr (u, k) ↦ rw k refl
  | inl k ↦ rw k (
      let other : (ns b == ns c) ≡ false = elim (Bool-cases (ns b == ns c)) [
        | inr h ↦ h
        | inl h ↦ absurd (
            none_some v
              (sym k ∙ sym (ap (λ key. seen_version key seen) ((eq_iff (ns b) (ns c)).0 h)) ∙ e))
      ] in
      rw other refl)
]
  where
    none_some : (v : ℕ) → ◌≡◌ {A = Option ℕ} none (some v) → ⊥
    none_some v h = cc

same_version :
    (b c : StreamBuild) (bs : List StreamBuild)
    → c.version ≤ b.version
    → All (λ d. d.version ≤ b.version) bs
    → (b.version == c.version) ≡ (leb b.version c.version && is_greatest bs c)
same_version b c bs le h = elim (Bool-cases (b.version == c.version)) [
  | inr e ↦ ground arith
  | inl e ↦
      let q = (nat_beq_iff b.version c.version).0 e in
      let k = head-is_greatest c bs (subst (λ v. All (λ d. d.version ≤ v) bs) q h) in ground arith
]

-- A stream that was not seen before.
new_cong :
    (seen : List (String × ℕ)) (b c : StreamBuild) (bs : List StreamBuild)
    → seen_version (ns b) seen ≡ none
    → c.version ≤ b.version
    → All (λ d. d.version ≤ b.version) bs
    → is_kept ((ns b, b.version) ∷ seen) bs c ≡ is_kept seen (b ∷ bs) c
new_cong seen b c bs e le h = elim (Bool-cases (ns b == ns c)) [
  | inl k ↦
      let unseen : seen_version (ns c) seen ≡ none =
        sym (ap (λ key. seen_version key seen) ((eq_iff (ns b) (ns c)).0 k)) ∙ e in
      rw (k, unseen) (rw k (same_version b c bs le h))
  | inr k ↦ rw k (elim (Option-cases (seen_version (ns c) seen)) [
    | inl u ↦ rw u (rw k refl)
    | inr (v, u) ↦ rw u refl
  ])
]

All-All : {A : Type 0} (P : A → Type 0) (xs : List A) → ((x : A) → P x) → All P xs
All-All P [] h = tt
All-All P (x ∷ xs) h = (h x, All-All P xs h)

latest_of-filter :
    (seen : List (String × ℕ)) (bs : List StreamBuild)
    → IsDescending bs
    → latest_of seen bs ≡ filter (is_kept seen bs) bs
unfolding latest_of
latest_of-filter seen [] h = refl
latest_of-filter seen (b ∷ bs) h = elim (Option-cases (seen_version (ns b) seen)) [
  | inl e ↦
      let top : is_greatest (b ∷ bs) b ≡ true = ground (arith, head-is_greatest b bs h.0) in
      let rest =
        latest_of-filter ((ns b, b.version) ∷ seen) bs h.1
        ∙ filter-cong (is_kept ((ns b, b.version) ∷ seen) bs) (is_kept seen (b ∷ bs)) bs
            (All-map _ _ bs (λ c le. new_cong seen b c bs e le h.0) h.0) in
      rw e (rw (top, rest) refl)
  | inr (v, e) ↦
      let rest =
        latest_of-filter seen bs h.1
        ∙ filter-cong (is_kept seen bs) (is_kept seen (b ∷ bs)) bs
            (All-All _ bs (λ c. seen_cong seen b c bs v e)) in
      rw e (rw rest refl)
]

count-filter :
    (p q : StreamBuild → Bool) (bs : List StreamBuild)
    → count p (filter q bs) ≡ count (λ b. p b && q b) bs
count-filter p q [] = refl
count-filter p q (b ∷ bs) = ground (arith, count-filter p q bs)

count-cong :
    (p q : StreamBuild → Bool) (bs : List StreamBuild)
    → ((b : StreamBuild) → p b ≡ q b)
    → count p bs ≡ count q bs
count-cong p q [] h = refl
count-cong p q (b ∷ bs) h = rw (h b, count-cong p q bs h) refl

filter-IsDescending :
    (p : StreamBuild → Bool) (bs : List StreamBuild) → IsDescending bs → IsDescending (filter p bs)
filter-IsDescending p [] h = tt
filter-IsDescending p (b ∷ bs) h =
    let rest = filter-IsDescending p bs h.1 in
    let top = All-filter (λ c. c.version ≤ b.version) p bs h.0 in
    elim (Bool-cases (p b)) [ inl e ↦ rw e (top, rest) | inr e ↦ rw e rest ]

module _ (table : List StreamBuild) (name : String) (stream_version : Option ℕ)
    (virtual_streams : List String) (states : List BuildState) where
  abbrev pub candidates : List StreamBuild
  candidates = filter (is_candidate_build name stream_version virtual_streams states) table

  abbrev pub last_builds : List StreamBuild
  last_builds =
      get_last_builds_in_stream_version_lte table name stream_version virtual_streams states

  last_builds-filter :
      last_builds ≡ filter (is_greatest (by_version_desc candidates)) (by_version_desc candidates)
  unfolding get_last_builds_in_stream_version_lte
  last_builds-filter =
      latest_of-filter [] (by_version_desc candidates) (by_version_desc-IsDescending candidates)

  -- get_last_builds_in_stream_version_lte gives, in an order in which the versions do not rise,
  -- the builds that the query selects and than which no selected build of the same name and
  -- stream has a greater version: each as often as the query selects it, and no others.
  pub last_builds-IsDescending :
      IsDescending last_builds
      × ((p : StreamBuild → Bool)
          → count p last_builds ≡ count (λ b. p b && is_greatest candidates b) candidates)
  last_builds-IsDescending =
      let sorted = by_version_desc candidates in
      (
        subst IsDescending (sym last_builds-filter) (
            filter-IsDescending (is_greatest sorted) sorted
              (by_version_desc-IsDescending candidates)),
        λ p.
            ap (count p) last_builds-filter
            ∙ count-filter p (is_greatest sorted) sorted
            ∙ count-by_version_desc (λ b. p b && is_greatest sorted b) candidates
            ∙ count-cong (λ b. p b && is_greatest sorted b) (λ b. p b && is_greatest candidates b)
                candidates
                (λ b.
                  ap (λ r. p b && r)
                    (all-by_version_desc (λ c. not (ns c == ns b) || leb c.version b.version)
                      candidates)),
      )
