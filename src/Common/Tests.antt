-- ===== src/Common/Tests.antt =====
-- Boolean tests, equality as an interface, and the conditional.
use Prim.Native.Nat.{ℕ, ◌≤◌, ◌<◌, compare, Ordering}
use Prim.Native.String.{String}
use mathlib.Core.Path.{◌≡◌, refl}
use mathlib.Core.Logic.{◌↔◌, ◌⊎◌, inl, inr}
use mathlib.Core.Bool.{Bool, true, false, ◌&&◌}
use mathlib.Core.Option.{Option, none, some}
use mathlib.Core.List.{List, [], ◌∷◌}
use native.Mathlib.Omega.{arith}
use text.Mathlib.Text.{◌==◌ as str_eq}
use text.Mathlib.TextEquality.{eq_iff}

abbrev pub ltb : ℕ → ℕ → Bool
ltb a b = elim (compare a b) [ Ordering.lt ↦ true | _ ↦ false ]

abbrev pub leb : ℕ → ℕ → Bool
leb a b = elim (compare a b) [ Ordering.gt ↦ false | _ ↦ true ]

abbrev pub nat_beq : ℕ → ℕ → Bool
nat_beq a b = elim (compare a b) [ Ordering.eq ↦ true | _ ↦ false ]

pub nat_beq_iff : (a b : ℕ) → (nat_beq a b ≡ true) ↔ (a ≡ b)
nat_beq_iff a b = ground arith

infix 1 if◌then◌else◌
abbrev pub if◌then◌else◌ {ℓ} : {A : Type ℓ} → Bool → A → A → A
if true then x else y = x
if false then x else y = y

-- Equality of the source's `==`, at each type that the source compares.
pub record EqualityTest {ℓ} (A : Type ℓ) : Type ℓ where
  pub is_equal : A → A → Bool
  pub is_equal_iff : (a b : A) → (is_equal a b ≡ true) ↔ (a ≡ b)

infix 50 ◌==◌
abbrev pub ◌==◌ {ℓ} : {A : Type ℓ} ⦃e : EqualityTest A⦄ → A → A → Bool
◌==◌ ⦃e⦄ = e.is_equal

instance abbrev pub nat_eq : EqualityTest ℕ
nat_eq = record { is_equal = nat_beq; is_equal_iff = nat_beq_iff }

abbrev pub option_beq {ℓ} : {A : Type ℓ} → EqualityTest A → Option A → Option A → Bool
option_beq e none none = true
option_beq e (some a) (some b) = e.is_equal a b
option_beq e _ _ = false

pub option_beq_iff {ℓ} :
    {A : Type ℓ} (e : EqualityTest A) (a b : Option A) → (option_beq e a b ≡ true) ↔ (a ≡ b)
option_beq_iff e none none = ((λ _. refl), (λ _. refl))
option_beq_iff e none (some b) = ((λ h. cc), (λ h. cc))
option_beq_iff e (some a) none = ((λ h. cc), (λ h. cc))
option_beq_iff e (some a) (some b) = (
  (λ h. let p : a ≡ b = (e.is_equal_iff a b).0 h in cc),
  (λ h. (e.is_equal_iff a b).1 (ground arith)),
)

instance abbrev pub option_eq {ℓ} : {A : Type ℓ} ⦃e : EqualityTest A⦄ → EqualityTest (Option A)
option_eq ⦃e⦄ = record { is_equal = option_beq e; is_equal_iff = option_beq_iff e }

instance abbrev pub string_eq : EqualityTest String
string_eq = record { is_equal = str_eq; is_equal_iff = eq_iff }

abbrev pub is_some {ℓ} : {A : Type ℓ} → Option A → Bool
is_some none = false
is_some (some a) = true

-- To split on a computed value and keep the equation.
pub Bool-cases : (b : Bool) → (b ≡ true) ⊎ (b ≡ false)
Bool-cases true = inl refl
Bool-cases false = inr refl

pub Option-cases {ℓ} : {A : Type ℓ} (o : Option A) → (o ≡ none) ⊎ ((a : A) × (o ≡ some a))
Option-cases none = inl refl
Option-cases (some a) = inr (a, refl)

pub ltb→lt : (a b : ℕ) → ltb a b ≡ true → a < b
ltb→lt a b h = ground arith

pub leb→le : (a b : ℕ) → leb a b ≡ true → a ≤ b
leb→le a b h = ground arith

abbrev pub list_beq {ℓ} : {A : Type ℓ} → EqualityTest A → List A → List A → Bool
list_beq e [] [] = true
list_beq e (x ∷ xs) (y ∷ ys) = e.is_equal x y && list_beq e xs ys
list_beq e _ _ = false

pub list_beq_iff {ℓ} :
    {A : Type ℓ} (e : EqualityTest A) (xs ys : List A) → (list_beq e xs ys ≡ true) ↔ (xs ≡ ys)
list_beq_iff e [] [] = ((λ _. refl), (λ _. refl))
list_beq_iff e [] (y ∷ ys) = ((λ h. cc), (λ h. cc))
list_beq_iff e (x ∷ xs) [] = ((λ h. cc), (λ h. cc))
list_beq_iff e (x ∷ xs) (y ∷ ys) =
    let heads = e.is_equal_iff x y in
    let tails = list_beq_iff e xs ys in
    ((λ h. ground (arith, heads, tails)), (λ h. ground (arith, heads, tails)))

instance abbrev pub list_eq {ℓ} : {A : Type ℓ} ⦃e : EqualityTest A⦄ → EqualityTest (List A)
list_eq ⦃e⦄ = record { is_equal = list_beq e; is_equal_iff = list_beq_iff e }
