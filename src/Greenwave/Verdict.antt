-- ===== src/Greenwave/Verdict.antt =====
-- The answer of `check_gating` in module_build_service/scheduler/greenwave.py.
use fm_orchestrator.Common.{
  ◌≡◌, refl, ◌∙◌, Bool, true, false, ◌||◌, any, String, List, [], ◌∷◌, arith,
}
use fm_orchestrator.Exec.{
  Result, ok, raised, external, value_error, type_error, runtime_error, query_error,
  attribute_error, recursion_error, key_error,
}
use fm_orchestrator.Greenwave.Client.{
  Client, query_satisfied, next_version, check_versions, check_gating, get_product_versions,
  with_versions,
}

abbrev pub is_yes : Result Bool → Bool
is_yes (ok b) = b
is_yes (raised e) = false

abbrev pub is_error : Result Bool → Bool
is_error (ok b) = false
is_error (raised e) = true

module _ (client : Client) (nvr : String) where
  abbrev pub some_yes : List String → Bool
  some_yes = any (λ v. is_yes (query_satisfied client nvr v))

  abbrev pub some_error : List String → Bool
  some_error = any (λ v. is_error (query_satisfied client nvr v))

  -- What the loop tells: yes if a version is satisfied; and if not, whether a query failed.
  pub record Tells (vs : List String) (before : Bool) (o : Bool × Bool) : Type 0 where
    pub answer : o.0 ≡ some_yes vs
    pub errors : some_yes vs ≡ false → o.1 ≡ (before || some_error vs)

  round-Tells :
      (v : String) (vs : List String) (before : Bool) (r : Result Bool)
      → query_satisfied client nvr v ≡ r
      → ((b : Bool) → Tells vs b (check_versions client nvr vs b))
      → Tells (v ∷ vs) before (next_version client r before (check_versions client nvr vs))
  round-Tells v vs before (ok true) e rest = record {
    answer = rw e refl;
    errors = rw e (λ h. absurd cc);
  }
  round-Tells v vs before (ok false) e rest = record {
    answer = rw e (rest before).answer;
    errors = rw e (rest before).errors;
  }
  round-Tells v vs before (raised x) e rest = record {
    answer = rw e (rest true).answer;
    errors = rw e (λ h. (rest true).errors h ∙ or_true before);
  }
    where
      or_true : (b : Bool) → true ≡ (b || true)
      or_true b = ground arith

  check_versions-Tells :
      (vs : List String) (before : Bool) → Tells vs before (check_versions client nvr vs before)
  unfolding check_versions
  check_versions-Tells [] before = record { answer = refl; errors = λ _. ground arith }
  check_versions-Tells (v ∷ vs) before =
      round-Tells v vs before (query_satisfied client nvr v) refl (check_versions-Tells vs)

  -- Whether the answer of check_gating is what the replies say.
  pub Answers : Result (List String) → Result (Bool × Bool) → Type 0
  Answers (ok versions) o =
      (verdict : Bool × Bool) × (o ≡ ok verdict) × Tells versions false verdict
  Answers (raised (external name)) o = o ≡ ok (false, true)
  Answers (raised e) o = o ≡ raised e

  verdict-Answers :
      (versions : Result (List String)) → Answers versions (with_versions client nvr versions)
  unfolding Answers
  verdict-Answers (ok versions) =
      (check_versions client nvr versions false, refl, check_versions-Tells versions false)
  verdict-Answers (raised (external name)) = refl
  verdict-Answers (raised value_error) = refl
  verdict-Answers (raised type_error) = refl
  verdict-Answers (raised runtime_error) = refl
  verdict-Answers (raised query_error) = refl
  verdict-Answers (raised attribute_error) = refl
  verdict-Answers (raised recursion_error) = refl
  verdict-Answers (raised key_error) = refl

  -- Where the product versions can be read, check_gating answers True exactly when the decision
  -- for some version is satisfied, whatever the order of the versions and whichever other queries
  -- fail; where it answers False, error_occurred tells whether the query of some version failed.
  -- Where reading the versions fails with an error of Greenwave, the answer is False with
  -- error_occurred set, and any other exception is passed on.
  pub check_gating-Answers : Answers (get_product_versions client) (check_gating client nvr)
  unfolding check_gating
  check_gating-Answers = verdict-Answers (get_product_versions client)
