-- ===== src/Exec/Ensures.antt =====
-- Postconditions of code that may raise, with one rule for each way to build it.
use fm_orchestrator.Common.{List, [], ◌∷◌, ◌≡◌, refl, subst, Bool, true, false, if◌then◌else◌}
use fm_orchestrator.Exec.{
  Exec, Result, ok, raised, Error, pure, raise, modify, gets, lift, ◌>>=◌, resume, for_each,
}

-- Where the code returns, `P` holds of the value and the store; where it raises, `E` of the store.
abbrev pub Holds : {S A : Type 0} → (A → S → Type 0) → (S → Type 0) → Result A → S → Type 0
Holds P E (ok a) s = P a s
Holds P E (raised e) s = E s

pub record Ensures {S A : Type 0} (P : A → S → Type 0) (E : S → Type 0) (o : Result A × S)
    : Type 0 where
  pub holds : Holds P E o.0 o.1

module _ {S A : Type 0} {P : A → S → Type 0} {E : S → Type 0} where
  pub Ensures-pure : (a : A) (s : S) → P a s → Ensures P E (pure a s)
  Ensures-pure a s h = record { holds = h }

  pub Ensures-raise : (e : Error) (s : S) → E s → Ensures P E (raise {A = A} e s)
  Ensures-raise e s h = record { holds = h }

  pub Ensures-gets : (f : S → A) (s : S) → P (f s) s → Ensures P E (gets f s)
  Ensures-gets f s h = record { holds = h }

  pub Ensures-lift :
      (r : Result A) (s : S) → ((a : A) → r ≡ ok a → P a s) → E s → Ensures P E (lift r s)
  Ensures-lift (ok a) s h k = record { holds = h a refl }
  Ensures-lift (raised e) s h k = record { holds = k }

  pub Ensures-if :
      (b : Bool) (m n : Exec S A) (s : S)
      → (b ≡ true → Ensures P E (m s))
      → (b ≡ false → Ensures P E (n s))
      → Ensures P E ((if b then m else n) s)
  Ensures-if true m n s km kn = km refl
  Ensures-if false m n s km kn = kn refl

module _ {S : Type 0} {P : Unit → S → Type 0} {E : S → Type 0} where
  pub Ensures-modify : (f : S → S) (s : S) → P tt (f s) → Ensures P E (modify f s)
  Ensures-modify f s h = record { holds = h }

module _ {S A B : Type 0} {P : A → S → Type 0} {Q : B → S → Type 0} {E : S → Type 0} where
  continue-Ensures :
      (r : Result A) (f : A → Exec S B) (s : S)
      → Holds P E r s
      → ((a : A) (t : S) → P a t → Ensures Q E (f a t))
      → Ensures Q E (resume r f s)
  continue-Ensures (ok a) f s h k = k a s h
  continue-Ensures (raised e) f s h k = record { holds = h }

  pub Ensures-bind :
      (m : Exec S A) (f : A → Exec S B) (s : S)
      → Ensures P E (m s)
      → ((a : A) (t : S) → P a t → Ensures Q E (f a t))
      → Ensures Q E ((m >>= f) s)
  Ensures-bind m f s h k = let (r, t) = m s in continue-Ensures r f t h.holds k

-- An invariant of the body of a loop, whichever way it ends, is one of the loop.
module _ {S A : Type 0} (E : S → Type 0) (body : A → Exec S Unit)
    (keeps : (a : A) (s : S) → E s → Ensures (λ _. E) E (body a s)) where
  pub Ensures-for_each : (l : List A) (s : S) → E s → Ensures (λ _. E) E (for_each body l s)
  unfolding for_each
  Ensures-for_each [] s h = record { holds = h }
  Ensures-for_each (a ∷ l) s h =
      Ensures-bind (body a) (λ _. for_each body l) s (keeps a s h) (λ _. Ensures-for_each l)

module _ {S A : Type 0} {P Q : A → S → Type 0} {E F : S → Type 0} where
  weaken-Holds :
      (r : Result A) (s : S)
      → Holds P E r s
      → ((a : A) (t : S) → P a t → Q a t)
      → ((t : S) → E t → F t)
      → Holds Q F r s
  weaken-Holds (ok a) s h k l = k a s h
  weaken-Holds (raised e) s h k l = l s h

  pub Ensures-weaken :
      (o : Result A × S)
      → Ensures P E o
      → ((a : A) (t : S) → P a t → Q a t)
      → ((t : S) → E t → F t)
      → Ensures Q F o
  Ensures-weaken o h k l = record { holds = weaken-Holds o.0 o.1 h.holds k l }

-- A postcondition that is the same on both ways out holds of the store that is left.
both_ways : {S A : Type 0} (E : S → Type 0) (r : Result A) (s : S) → Holds (λ _. E) E r s → E s
both_ways E (ok a) s h = h
both_ways E (raised e) s h = h

pub Ensures-always :
    {S A : Type 0} (E : S → Type 0) (o : Result A × S) → Ensures (λ _. E) E o → E o.1
Ensures-always E o h = both_ways E o.0 o.1 h.holds

Holds-both : {S A : Type 0} (E : S → Type 0) (r : Result A) (s : S) → E s → Holds (λ _. E) E r s
Holds-both E (ok a) s h = h
Holds-both E (raised e) s h = h

pub Ensures-of : {S A : Type 0} (E : S → Type 0) (o : Result A × S) → E o.1 → Ensures (λ _. E) E o
Ensures-of E o h = record { holds = Holds-both E o.0 o.1 h }

ok_holds :
    {S A : Type 0} (P : A → S → Type 0) (E : S → Type 0) (r : Result A) (s : S) (a : A)
    → Holds P E r s
    → r ≡ ok a
    → P a s
ok_holds P E r s a h e = subst (λ x. Holds P E x s) e h

-- The postcondition of a result that is known.
pub Ensures-ok :
    {S A : Type 0} (P : A → S → Type 0) (E : S → Type 0) (o : Result A × S) (a : A)
    → Ensures P E o
    → o.0 ≡ ok a
    → P a o.1
Ensures-ok P E o a h e = ok_holds P E o.0 o.1 a h.holds e

-- Every run has the postcondition that asks for nothing.
unit-Holds : {S A : Type 0} (r : Result A) (s : S) → Holds (λ _ _. Unit {0}) (λ _. Unit {0}) r s
unit-Holds (ok a) s = tt
unit-Holds (raised e) s = tt

pub Ensures-outcome :
    {S A : Type 0} (o : Result A × S) → Ensures (λ a t. o ≡ (ok a, t)) (λ _. Unit {0}) o
Ensures-outcome (ok a, s) = record { holds = refl }
Ensures-outcome (raised e, s) = record { holds = tt }

pub Ensures-any : {S A : Type 0} (o : Result A × S) → Ensures (λ _ _. Unit {0}) (λ _. Unit {0}) o
Ensures-any o = record { holds = unit-Holds o.0 o.1 }

Holds-and :
    {S A : Type 0} (P Q : A → S → Type 0) (r : Result A) (s : S)
    → Holds P (λ _. Unit {0}) r s
    → Holds Q (λ _. Unit {0}) r s
    → Holds (λ a t. P a t × Q a t) (λ _. Unit {0}) r s
Holds-and P Q (ok a) s h k = (h, k)
Holds-and P Q (raised e) s h k = tt

-- Two postconditions of the returned value.
pub Ensures-and :
    {S A : Type 0} {P Q : A → S → Type 0} (o : Result A × S)
    → Ensures P (λ _. Unit {0}) o
    → Ensures Q (λ _. Unit {0}) o
    → Ensures (λ a t. P a t × Q a t) (λ _. Unit {0}) o
Ensures-and {P = P} {Q = Q} o h k = record { holds = Holds-and P Q o.0 o.1 h.holds k.holds }
