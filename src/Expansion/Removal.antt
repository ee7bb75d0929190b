-- ===== src/Expansion/Removal.antt =====
-- The loop of `expand_single_mse_streams` in module_build_service/common/resolve.py as a filter.
use mathlib.Core.List.{append-nil, append_assoc}
use fm_orchestrator.Common.{
  ◌≡◌, refl, sym, ◌∙◌, ap, subst, Bool, true, false, not, ◌&&◌, ◌||◌, any, some, is_some, String,
  List, [], ◌∷◌, ◌++◌, filter, filter-filter, string_eq, option_eq, ◌==◌, eq_iff, if◌then◌else◌,
  arith, inl, inr, Bool-cases, Option-cases,
}
use fm_orchestrator.Expansion.Streams.{excluded, remove, is_blacklist, take_streams}

-- No text stands twice in the list.
abbrev pub IsUnique : List String → Type 0
IsUnique [] = Unit
IsUnique (s ∷ ss) = (any (λ t. t == s) ss ≡ false) × IsUnique ss

filter-cong :
    {A : Type 0} (p q : A → Bool) (xs : List A) → ((x : A) → p x ≡ q x) → filter p xs ≡ filter q xs
filter-cong p q [] h = refl
filter-cong p q (x ∷ xs) h = rw (h x, filter-cong p q xs h) refl

any-filter :
    {A : Type 0} (p q : A → Bool) (xs : List A) → any q xs ≡ false → any q (filter p xs) ≡ false
any-filter p q [] h = refl
any-filter p q (x ∷ xs) h = ground (arith, any-filter p q xs)

IsUnique-filter : (p : String → Bool) (ss : List String) → IsUnique ss → IsUnique (filter p ss)
IsUnique-filter p [] h = tt
IsUnique-filter p (s ∷ ss) h = elim (Bool-cases (p s)) [
  | inl e ↦ rw e ((any-filter p (λ t. t == s) ss h.0, IsUnique-filter p ss h.1))
  | inr e ↦ rw e (IsUnique-filter p ss h.1)
]

filter-absent :
    (s : String) (ss : List String)
    → any (λ t. t == s) ss ≡ false
    → filter (λ t. not (t == s)) ss ≡ ss
filter-absent s [] h = refl
filter-absent s (t ∷ ss) h = ground (arith, filter-absent s ss)

beq_refl : (s : String) → (s == s) ≡ true
beq_refl s = (eq_iff s s).1 refl

-- remove takes the only occurrence.
remove-filter :
    (s : String) (ss : List String) → IsUnique ss → remove s ss ≡ filter (λ t. not (t == s)) ss
remove-filter s [] h = refl
remove-filter s (t ∷ ss) h = elim (Bool-cases (t == s)) [
  | inl e ↦
      let same : t ≡ s = (eq_iff t s).0 e in
      let absent : any (λ u. u == s) ss ≡ false =
        subst (λ u. any (λ v. v == u) ss ≡ false) same h.0 in
      rw e (sym (filter-absent s ss absent))
  | inr e ↦ rw e (ap (λ r. t ∷ r) (remove-filter s ss h.1))
]

remove_present :
    (s : String) (ss : List String)
    → IsUnique ss
    → (if any (λ t. t == s) ss then remove s ss else ss) ≡ filter (λ t. not (t == s)) ss
remove_present s ss h = elim (Bool-cases (any (λ t. t == s) ss)) [
  | inl e ↦ rw e (remove-filter s ss h)
  | inr e ↦ rw e (sym (filter-absent s ss e))
]

-- A stream that the list excludes by "-".
abbrev pub is_excluded_by : List String → String → Bool
is_excluded_by streams s = any (λ x. excluded x == some s) streams

beq_sym : (s t : String) → (s == t) ≡ (t == s)
beq_sym s t = elim (Bool-cases (s == t)) [
  | inl e ↦ let same : s ≡ t = (eq_iff s t).0 e in cc
  | inr e ↦ elim (Bool-cases (t == s)) [
    | inl k ↦ let same : t ≡ s = (eq_iff t s).0 k in cc
    | inr k ↦ e ∙ sym k
  ]
]

filter_all : (ss : List String) → filter (λ s. true) ss ≡ ss
filter_all [] = refl
filter_all (s ∷ ss) = ap (λ r. s ∷ r) (filter_all ss)

-- Where every stream is excluded, the loop leaves out the excluded ones.
pub take_streams-excluded :
    (streams found : List String)
    → is_blacklist streams ≡ true
    → IsUnique found
    → take_streams true streams found ≡ filter (λ s. not (is_excluded_by streams s)) found
unfolding take_streams
take_streams-excluded [] found h k = sym (filter_all found)
take_streams-excluded (x ∷ xs) found h k = elim (Option-cases (excluded x)) [
  | inl e ↦ ground (arith, e)
  | inr (s, e) ↦
      let rest = filter (λ t. not (t == s)) found in
      rw (e, remove_present s found k)
        (take_streams-excluded xs rest (ground arith) (IsUnique-filter (λ t. not (t == s)) found k)
          ∙ filter-filter (λ t. not (t == s)) (λ t. not (is_excluded_by xs t)) found
          ∙ filter-cong (λ t. not (t == s) && not (is_excluded_by xs t))
              (λ t. not ((s == t) || is_excluded_by xs t)) found
              (λ t. rw (beq_sym s t) (ground arith)))
]

-- Otherwise it adds those that are not excluded.
pub take_streams-wanted :
    (streams found : List String)
    → take_streams false streams found ≡ found ++ filter (λ s. not (is_some (excluded s))) streams
unfolding take_streams
take_streams-wanted [] found = sym (append-nil found)
take_streams-wanted (s ∷ ss) found = elim (Option-cases (excluded s)) [
  | inl e ↦ rw e (
      take_streams-wanted ss (found ++ s ∷ [])
      ∙ append_assoc found (s ∷ []) (filter (λ t. not (is_some (excluded t))) ss))
  | inr (t, e) ↦ rw e (take_streams-wanted ss found)
]
