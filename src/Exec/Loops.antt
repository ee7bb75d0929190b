-- ===== src/Exec/Loops.antt =====
-- A `for` loop whose body returns: what the loop leaves, as the fold of what the body does to a
-- part of the store.
use fm_orchestrator.Common.{◌≡◌, refl, ap, ◌∙◌, List, [], ◌∷◌, fold_each}
use fm_orchestrator.Exec.{Exec, Result, ok, resume, for_each}

resume-ok :
    {S A B : Type 0} (r : Result A) (a : A) (f : A → Exec S B) (s : S)
    → r ≡ ok a
    → resume r f s ≡ f a s
resume-ok r a f s e = rw e refl

-- `Keeps` is an invariant of the loop under which each round returns.
module _ {S A : Type 0} (Keeps : S → Type 0) (body : A → Exec S Unit)
    (returns : (a : A) (s : S) → Keeps s → (body a s).0 ≡ ok tt)
    (keeps : (a : A) (s : S) → Keeps s → Keeps (body a s).1) where
  round :
      (a : A) (l : List A) (s : S)
      → Keeps s
      → for_each body (a ∷ l) s ≡ for_each body l (body a s).1
  unfolding for_each
  round a l s k = resume-ok (body a s).0 tt (λ _. for_each body l) (body a s).1 (returns a s k)

  pub for_each-ok : (l : List A) (s : S) → Keeps s → (for_each body l s).0 ≡ ok tt
  unfolding for_each
  for_each-ok [] s k = refl
  for_each-ok (a ∷ l) s k = ap (λ o. o.0) (round a l s k) ∙ for_each-ok l (body a s).1 (keeps a s k)

  pub for_each-Keeps : (l : List A) (s : S) → Keeps s → Keeps (for_each body l s).1
  unfolding for_each
  for_each-Keeps [] s k = k
  for_each-Keeps (a ∷ l) s k = rw (round a l s k) (for_each-Keeps l (body a s).1 (keeps a s k))

  pub for_each-fold :
      {X : Type 0} (read : S → X) (step : A → X → X)
      → ((a : A) (s : S) → Keeps s → read (body a s).1 ≡ step a (read s))
      → (l : List A) (s : S) → Keeps s
      → read (for_each body l s).1 ≡ fold_each step l (read s)
  unfolding for_each
  for_each-fold read step h [] s k = refl
  for_each-fold read step h (a ∷ l) s k =
      ap (λ o. read o.1) (round a l s k)
      ∙ for_each-fold read step h l (body a s).1 (keeps a s k)
      ∙ ap (fold_each step l) (h a s k)
