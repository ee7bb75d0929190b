-- ===== src/Reuse/Sets.antt =====
-- The sets that module_build_service/scheduler/reuse.py compares, by their members.
use fm_orchestrator.Common.{
  ℕ, zero, suc, ◌+◌, ◌≤◌, ◌<◌, ◌≡◌, ◌↔◌, refl, true, List, [], ◌∷◌, all, EqualityTest, ◌==◌, arith,
  inl, inr, Bool-cases, ℕ, ◌⊎◌, subst,
}
use fm_orchestrator.Exec.{ok, Result-cases}
use fm_orchestrator.Models.{Mmd, ComponentBuild}
use fm_orchestrator.Reuse.{
  Signature, signature_eq, contains, is_same_set, batch_signatures, same_batches,
}

ℕ-split : (a b : ℕ) → a ≤ b → (a ≡ b) ⊎ (suc a ≤ b)
ℕ-split a b h = grind arith

-- Two lists have the same members.
abbrev pub SameMembers {ℓ} : {A : Type ℓ} ⦃e : EqualityTest A⦄ → List A → List A → Type ℓ
SameMembers {A = A} xs ys = (a : A) → (contains xs a ≡ true) ↔ (contains ys a ≡ true)

module _ {ℓ} {A : Type ℓ} ⦃e : EqualityTest A⦄ where
  all_contained :
      (xs ys : List A)
      → all (contains ys) xs ≡ true
      → (a : A) → contains xs a ≡ true
      → contains ys a ≡ true
  all_contained [] ys h a c = absurd (cc)
  all_contained (x ∷ xs) ys h a c = elim (Bool-cases (x == a)) [
    | inl p ↦ subst (λ z. contains ys z ≡ true) ((e.is_equal_iff x a).0 p) (ground arith)
    | inr p ↦ all_contained xs ys (ground arith) a (ground arith)
  ]

  contained_all :
      (xs ys : List A)
      → ((a : A) → contains xs a ≡ true → contains ys a ≡ true)
      → all (contains ys) xs ≡ true
  contained_all [] ys h = refl
  contained_all (x ∷ xs) ys h =
      let self = (e.is_equal_iff x x).1 refl in
      let head = h x (rw self) in
      let rest =
        contained_all xs ys
          (λ a c. h a (elim (Bool-cases (x == a)) [ inl p ↦ rw p | inr p ↦ rw p c ])) in
      rw (head, rest)

  pub is_same_set_iff : (xs ys : List A) → (is_same_set xs ys ≡ true) ↔ SameMembers xs ys
  is_same_set_iff xs ys = (
    (λ h a. (all_contained xs ys (ground arith) a, all_contained ys xs (ground arith) a)),
    (λ h.
        let there = contained_all xs ys (λ a. (h a).0) in
        let back = contained_all ys xs (λ a. (h a).1) in rw (there, back)),
  )

module _ (mmd old_mmd : Mmd) (new_builds old_builds : List ComponentBuild) where
  -- One batch holds the same components, with the same commits and architectures, in both.
  pub record BatchAgrees (batch : ℕ) : Type 0 where
    pub now : List Signature
    pub before : List Signature
    pub now_listed : batch_signatures mmd batch new_builds ≡ ok now
    pub before_listed : batch_signatures old_mmd batch old_builds ≡ ok before
    pub same : SameMembers before now

  batch_step :
      (batch n : ℕ)
      → BatchAgrees batch
      → same_batches mmd old_mmd new_builds old_builds (suc batch) n ≡ ok true
      → same_batches mmd old_mmd new_builds old_builds batch (suc n) ≡ ok true
  unfolding same_batches
  batch_step batch n b rest =
      rw (b.now_listed, b.before_listed) (rw (rest, (is_same_set_iff b.before b.now).1 b.same))

  batch_signatures_agree :
      (batch n : ℕ) (now before : List Signature)
      → batch_signatures mmd batch new_builds ≡ ok now
      → batch_signatures old_mmd batch old_builds ≡ ok before
      → same_batches mmd old_mmd new_builds old_builds batch (suc n) ≡ ok true
      → BatchAgrees batch × (same_batches mmd old_mmd new_builds old_builds (suc batch) n ≡ ok true)
  unfolding same_batches
  batch_signatures_agree batch n now before p q h =
      elim (Result-cases (same_batches mmd old_mmd new_builds old_builds (suc batch) n)) [
        | inr (e, r) ↦ absurd (ground arith)
        | inl (b, r) ↦ (
          record {
            now = now;
            before = before;
            now_listed = p;
            before_listed = q;
            same = (is_same_set_iff before now).0 (ground arith);
          },
          ground arith,
        )
      ]

  same_batches-suc :
      (batch n : ℕ)
      → same_batches mmd old_mmd new_builds old_builds batch (suc n) ≡ ok true
      → BatchAgrees batch × (same_batches mmd old_mmd new_builds old_builds (suc batch) n ≡ ok true)
  unfolding same_batches
  same_batches-suc batch n h = elim (Result-cases (batch_signatures mmd batch new_builds)) [
    | inr (e, p) ↦ absurd (ground arith)
    | inl (now, p) ↦ elim (Result-cases (batch_signatures old_mmd batch old_builds)) [
      | inr (e, q) ↦ absurd (ground arith)
      | inl (before, q) ↦ batch_signatures_agree batch n now before p q h
    ]
  ]

  same_batches_sound :
      (batch n : ℕ)
      → same_batches mmd old_mmd new_builds old_builds batch n ≡ ok true
      → (k : ℕ) → batch ≤ k
      → k < batch + n
      → BatchAgrees k
  same_batches_sound batch zero h k low high = absurd (omega arith)
  same_batches_sound batch (suc n) h k low high =
      let both = same_batches-suc batch n h in
      elim (ℕ-split batch k low) [
        | inl e ↦ subst BatchAgrees e both.0
        | inr later ↦ same_batches_sound (suc batch) n both.1 k later (omega arith)
      ]

  same_batches_complete :
      (batch n : ℕ)
      → ((k : ℕ) → batch ≤ k → k < batch + n → BatchAgrees k)
      → same_batches mmd old_mmd new_builds old_builds batch n ≡ ok true
  unfolding same_batches
  same_batches_complete batch zero h = refl
  same_batches_complete batch (suc n) h =
      batch_step batch n (h batch (omega arith) (omega arith))
        (same_batches_complete (suc batch) n (λ k low high. h k (omega arith) (omega arith)))

  pub same_batches_iff :
      (batch n : ℕ)
      → (same_batches mmd old_mmd new_builds old_builds batch n ≡ ok true)
        ↔ ((k : ℕ) → batch ≤ k → k < batch + n → BatchAgrees k)
  same_batches_iff batch n = (same_batches_sound batch n, same_batches_complete batch n)
