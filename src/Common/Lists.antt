-- ===== src/Common/Lists.antt =====
-- Lists: Python's comprehensions and built-ins over them, and predicates by recursion.
use Prim.Native.Nat.{ℕ, suc, ◌+◌}
use mathlib.Core.Path.{◌≡◌, refl, sym, ◌∙◌}
use mathlib.Core.Logic.{inl, inr}
use mathlib.Core.Logic.{◌≢◌}
use mathlib.Core.Bool.{Bool, true, false, ◌&&◌, ◌||◌}
use mathlib.Core.Option.{Option, none, some}
use mathlib.Core.List.{List, [], ◌∷◌, ◌++◌, map, append-nil, append_assoc}
use native.Mathlib.Omega.{arith}
use fm_orchestrator.Common.Tests.{if◌then◌else◌, Bool-cases}

module _ {ℓ} {A : Type ℓ} where
  abbrev pub length : List A → ℕ
  length [] = 0
  length (x ∷ xs) = suc (length xs)

  -- [x for x in xs if p(x)]
  abbrev pub filter : (A → Bool) → List A → List A
  filter p [] = []
  filter p (x ∷ xs) = let rest = filter p xs in if p x then x ∷ rest else rest

  -- any(p(x) for x in xs)
  abbrev pub any : (A → Bool) → List A → Bool
  any p [] = false
  any p (x ∷ xs) = p x || any p xs

  -- all(p(x) for x in xs)
  abbrev pub all : (A → Bool) → List A → Bool
  all p [] = true
  all p (x ∷ xs) = p x && all p xs

  abbrev pub count : (A → Bool) → List A → ℕ
  count p [] = 0
  count p (x ∷ xs) = (if p x then 1 else 0) + count p xs

  -- query.first()
  abbrev pub first : List A → Option A
  first [] = none
  first (x ∷ xs) = some x

  -- The truth of a list.
  abbrev pub is_nonempty : List A → Bool
  is_nonempty [] = false
  is_nonempty (x ∷ xs) = true

  -- The elements taken one after the other, from the left.
  abbrev pub fold_each {κ} : {X : Type κ} → (A → X → X) → List A → X → X
  fold_each step [] x = x
  fold_each step (a ∷ l) x = fold_each step l (step a x)

  -- [y for x in xs for y in f(x)]
  abbrev pub concat_map {κ} : {B : Type κ} → (A → List B) → List A → List B
  concat_map f [] = []
  concat_map f (x ∷ xs) = f x ++ concat_map f xs

  abbrev pub All {κ} : (A → Type κ) → List A → Type κ
  All P [] = Unit
  All P (x ∷ xs) = P x × All P xs

  -- No two elements have one key.
  abbrev pub HasDistinct : (A → ℕ) → List A → Type 0
  HasDistinct key [] = Unit
  HasDistinct key (x ∷ xs) = All (λ y. key y ≢ key x) xs × HasDistinct key xs

  pub any-eq-false : (p : A → Bool) (xs : List A) → any p xs ≡ false → All (λ x. p x ≡ false) xs
  any-eq-false p [] h = tt
  any-eq-false p (x ∷ xs) h = (ground arith, any-eq-false p xs (ground arith))

  pub All-any-eq-false : (p : A → Bool) (xs : List A) → All (λ x. p x ≡ false) xs → any p xs ≡ false
  All-any-eq-false p [] h = refl
  All-any-eq-false p (x ∷ xs) h = ground (arith, All-any-eq-false p xs)

  pub All-filter {κ} :
      (P : A → Type κ) (p : A → Bool) (xs : List A) → All P xs → All P (filter p xs)
  All-filter P p [] h = tt
  All-filter P p (x ∷ xs) h = ground (arith, All-filter P p xs)

  pub All-map {κ μ} :
      (P : A → Type κ) (Q : A → Type μ) (xs : List A) → ((x : A) → P x → Q x) → All P xs → All Q xs
  All-map P Q [] f h = tt
  All-map P Q (x ∷ xs) f h = (f x h.0, All-map P Q xs f h.1)

  pub filter-filter :
      (p q : A → Bool) (xs : List A) → filter q (filter p xs) ≡ filter (λ x. p x && q x) xs
  filter-filter p q [] = refl
  filter-filter p q (x ∷ xs) = ground (arith, filter-filter p q xs)

  -- Steps that a test leaves out.
  pub fold_each-filter {κ} :
      {X : Type κ} (p : A → Bool) (step : A → X → X) (xs : List A) (x : X)
      → fold_each (λ a y. if p a then step a y else y) xs x ≡ fold_each step (filter p xs) x
  fold_each-filter p step [] x = refl
  fold_each-filter p step (a ∷ xs) x = elim (Bool-cases (p a)) [
    | inl e ↦ rw e (fold_each-filter p step xs (step a x))
    | inr e ↦ rw e (fold_each-filter p step xs x)
  ]

  -- Steps that each append one element.
  pub fold_each-append {κ} :
      {B : Type κ} (f : A → B) (xs : List A) (ys : List B)
      → fold_each (λ a l. l ++ f a ∷ []) xs ys ≡ ys ++ map f xs
  fold_each-append f [] ys = sym (append-nil ys)
  fold_each-append f (a ∷ xs) ys =
      fold_each-append f xs (ys ++ f a ∷ []) ∙ append_assoc ys (f a ∷ []) (map f xs)

  pub fold_each-concat_map {κ} :
      {B : Type κ} (f : A → List B) (xs : List A) (ys : List B)
      → fold_each (λ a l. l ++ f a) xs ys ≡ ys ++ concat_map f xs
  fold_each-concat_map f [] ys = sym (append-nil ys)
  fold_each-concat_map f (a ∷ xs) ys =
      fold_each-concat_map f xs (ys ++ f a) ∙ append_assoc ys (f a) (concat_map f xs)

  pub All-append {κ} : (P : A → Type κ) (xs ys : List A) → All P xs → All P ys → All P (xs ++ ys)
  All-append P [] ys h k = k
  All-append P (x ∷ xs) ys h k = (h.0, All-append P xs ys h.1 k)
