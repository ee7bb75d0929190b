-- ===== src/Exec.antt =====
-- Code that changes a store and may raise. What was written before a raise stays written, so the
-- store comes back beside the exception too.
pub mod Ensures
pub mod Loops
use fm_orchestrator.Common.{List, [], ◌∷◌, String, ◌≡◌, refl, ◌⊎◌, inl, inr}

-- The exceptions that the modelled code raises or passes on; `external` is one of a called service.
pub data Error : Type 0 where
  value_error type_error runtime_error query_error attribute_error recursion_error key_error : Error
  external : String → Error

pub data Result (A : Type 0) : Type 0 where
  ok : A → Result A
  raised : Error → Result A

abbrev pub Exec : Type 0 → Type 0 → Type 0
Exec S A = S → Result A × S

module _ {S A : Type 0} where
  abbrev pub pure : A → Exec S A
  pure a s = (ok a, s)

  abbrev pub raise : Error → Exec S A
  raise e s = (raised e, s)

  abbrev pub lift : Result A → Exec S A
  lift result store = (result, store)

  abbrev pub gets : (S → A) → Exec S A
  gets read store = (ok (read store), store)

module _ {S : Type 0} where
  abbrev pub modify : (S → S) → Exec S Unit
  modify f s = (ok tt, f s)

module _ {S A B : Type 0} where
  abbrev pub resume : Result A → (A → Exec S B) → Exec S B
  resume (ok a) f s = f a s
  resume (raised e) f s = (raised e, s)

  infixl 10 ◌>>=◌ ◌>>◌
  abbrev pub ◌>>=◌ : Exec S A → (A → Exec S B) → Exec S B
  ◌>>=◌ m f s = let (r, s') = m s in resume r f s'

  abbrev pub ◌>>◌ : Exec S A → Exec S B → Exec S B
  m >> n = m >>= λ _. n

module _ {S A : Type 0} where
  -- A `for` loop over a list.
  unfoldable pub for_each : (A → Exec S Unit) → List A → Exec S Unit
  for_each body [] = pure tt
  for_each body (x ∷ xs) = do body x; for_each body xs

pub Result-cases :
    {A : Type 0} (r : Result A) → ((a : A) × (r ≡ ok a)) ⊎ ((e : Error) × (r ≡ raised e))
Result-cases (ok a) = inl (a, refl)
Result-cases (raised e) = inr (e, refl)
