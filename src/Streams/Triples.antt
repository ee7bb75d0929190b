-- ===== src/Streams/Triples.antt =====
-- `ModuleBuild.get_stream_version` of module_build_service/common/models.py on streams "x.y.z".
use fm_orchestrator.Common.{
  subst, is_nonempty, nat_eq, ◌==◌, ℕ, ◌+◌, ◌-◌, ◌*◌, ◌/◌, ◌%◌, ◌<◌, ◌≡◌, refl, sym, ◌∙◌, ap, Bool,
  true, false, ◌&&◌, some, List, [], ◌∷◌, ◌++◌, All, ltb, if◌then◌else◌, arith, inl, inr,
  Bool-cases, concat_map,
}
use mathlib.Core.List.{append-nil}
use fm_orchestrator.Streams.Version.{
  is_digit, scan, rstrip_dots, split_dots, cons_first, zfill, number, version_digits,
  get_stream_version, stream_number, first_suffix,
}

-- A number below 100 as it is printed.
abbrev pub printed : ℕ → List ℕ
printed n = if ltb n 10 then (48 + n) ∷ [] else (48 + n / 10) ∷ (48 + n % 10) ∷ []

abbrev pub printed_triple : ℕ → ℕ → ℕ → List ℕ
printed_triple x y z = printed x ++ 46 ∷ (printed y ++ 46 ∷ printed z)

abbrev AreDigits : List ℕ → Type 0
AreDigits = All (λ c. is_digit c ≡ true)

printed-AreDigits : (n : ℕ) → n < 100 → AreDigits (printed n)
printed-AreDigits n h = elim (Bool-cases (ltb n 10)) [
  | inl e ↦ rw e (ground arith, tt)
  | inr e ↦ rw e (ground arith, (ground arith, tt))
]

zfill-printed : (n : ℕ) → n < 100 → zfill (printed n) ≡ (48 + n / 10) ∷ (48 + n % 10) ∷ []
zfill-printed n h = elim (Bool-cases (ltb n 10)) [
  | inl e ↦
      let q : n / 10 ≡ 0 = ground arith in
      let r : n % 10 ≡ n = ground arith in rw e (rw (q, r) refl)
  | inr e ↦ rw e refl
]

scan-prefix : (p s : List ℕ) → All (λ c. is_digit c ≡ false) p → scan false (p ++ s) ≡ scan false s
unfolding scan
scan-prefix [] s h = refl
scan-prefix (c ∷ p) s h = rw h.0 (scan-prefix p s h.1)

scan-digits : (ds s : List ℕ) → AreDigits ds → scan true (ds ++ s) ≡ ds ++ scan true s
unfolding scan
scan-digits [] s h = refl
scan-digits (c ∷ ds) s h = rw h.0 (ap (λ l. c ∷ l) (scan-digits ds s h.1))

not_dot : (c : ℕ) → is_digit c ≡ true → (c == 46) ≡ false
not_dot c h = ground arith

split-digits :
    (c : ℕ) (ds s : List ℕ)
    → AreDigits (c ∷ ds)
    → split_dots ((c ∷ ds) ++ 46 ∷ s) ≡ (c ∷ ds) ∷ split_dots s
unfolding split_dots
split-digits c [] s h = rw (not_dot c h.0) refl
split-digits c (d ∷ ds) s h = rw (not_dot c h.0) (ap (cons_first c) (split-digits d ds s h.1))

split-last : (c : ℕ) (ds : List ℕ) → AreDigits (c ∷ ds) → split_dots (c ∷ ds) ≡ (c ∷ ds) ∷ []
unfolding split_dots
split-last c [] h = rw (not_dot c h.0) refl
split-last c (d ∷ ds) h = rw (not_dot c h.0) (ap (cons_first c) (split-last d ds h.1))

rstrip-digits : (ds : List ℕ) → AreDigits ds → rstrip_dots ds ≡ ds
unfolding rstrip_dots
rstrip-digits [] h = refl
rstrip-digits (c ∷ ds) h = rw (not_dot c h.0) (ap (λ l. c ∷ l) (rstrip-digits ds h.1))

rstrip-append :
    (l s : List ℕ)
    → rstrip_dots s ≡ s
    → is_nonempty s ≡ true
    → (rstrip_dots (l ++ s) ≡ l ++ s) × (is_nonempty (l ++ s) ≡ true)
unfolding rstrip_dots
rstrip-append [] s h k = (h, k)
rstrip-append (c ∷ l) s h k =
    let rest = rstrip-append l s h k in (rw (rest.0, rest.1) (last (c == 46)), refl)
  where
    last : (b : Bool) → (if b && false then [] else c ∷ (l ++ s)) ≡ c ∷ (l ++ s)
    last b = ground arith

module _ (p : List ℕ) (text : All (λ c. is_digit c ≡ false) p) (a b c : ℕ) (as1 bs cs : List ℕ)
    (da : AreDigits (a ∷ as1)) (db : AreDigits (b ∷ bs)) (dc : AreDigits (c ∷ cs)) where
  last_part : List ℕ
  last_part = (b ∷ bs) ++ 46 ∷ c ∷ cs

  scan-triple :
      scan false (p ++ ((a ∷ as1) ++ 46 ∷ ((b ∷ bs) ++ 46 ∷ c ∷ cs)))
      ≡ (a ∷ as1) ++ 46 ∷ ((b ∷ bs) ++ 46 ∷ c ∷ cs)
  unfolding scan
  scan-triple =
      scan-prefix p _ text
      ∙ rw da.0 (
          ap (λ l. a ∷ l)
            (scan-digits as1 _ da.1
              ∙ ap (λ l. as1 ++ 46 ∷ l)
                  (scan-digits (b ∷ bs) _ db
                    ∙ ap (λ l. (b ∷ bs) ++ 46 ∷ l)
                        (ap (scan true) (sym (append-nil (c ∷ cs)))
                          ∙ scan-digits (c ∷ cs) [] dc
                          ∙ append-nil (c ∷ cs)))))

  rstrip-triple :
      rstrip_dots ((a ∷ as1) ++ 46 ∷ ((b ∷ bs) ++ 46 ∷ c ∷ cs))
      ≡ (a ∷ as1) ++ 46 ∷ ((b ∷ bs) ++ 46 ∷ c ∷ cs)
  rstrip-triple =
      let tail = rstrip-append (46 ∷ []) (c ∷ cs) (rstrip-digits (c ∷ cs) dc) refl in
      let middle = rstrip-append (46 ∷ b ∷ bs) (46 ∷ c ∷ cs) tail.0 tail.1 in
      (rstrip-append (a ∷ as1) (46 ∷ ((b ∷ bs) ++ 46 ∷ c ∷ cs)) middle.0 middle.1).0

  pub triple_digits :
      version_digits (p ++ ((a ∷ as1) ++ 46 ∷ ((b ∷ bs) ++ 46 ∷ c ∷ cs)))
      ≡ zfill (a ∷ as1) ++ (zfill (b ∷ bs) ++ (zfill (c ∷ cs) ++ []))
  unfolding version_digits
  triple_digits =
      ap (λ l. concat_map zfill (split_dots (rstrip_dots l))) scan-triple
      ∙ ap (λ l. concat_map zfill (split_dots l)) rstrip-triple
      ∙ ap (concat_map zfill) (
          split-digits a as1 _ da
          ∙ ap (λ l. (a ∷ as1) ∷ l)
              (split-digits b bs _ db ∙ ap (λ l. (b ∷ bs) ∷ l) (split-last c cs dc)))

printed-cons : (n : ℕ) → (c : ℕ) × (ds : List ℕ) × (printed n ≡ c ∷ ds)
printed-cons n = elim (Bool-cases (ltb n 10)) [
  | inl e ↦ (48 + n, [], rw e refl)
  | inr e ↦ (48 + n / 10, (48 + n % 10) ∷ [], rw e refl)
]

printed_digits :
    (p : List ℕ) (x y z : ℕ)
    → All (λ c. is_digit c ≡ false) p
    → x < 100
    → y < 100
    → z < 100
    → version_digits (p ++ printed_triple x y z)
      ≡ zfill (printed x) ++ (zfill (printed y) ++ (zfill (printed z) ++ []))
printed_digits p x y z text hx hy hz =
    let (a, l, ex) = printed-cons x in
    let (b, m, ey) = printed-cons y in
    let (c, n, ez) = printed-cons z in
    let dx = subst AreDigits ex (printed-AreDigits x hx) in
    let dy = subst AreDigits ey (printed-AreDigits y hy) in
    let dz = subst AreDigits ez (printed-AreDigits z hz) in
    rw (ex, ey, ez) (triple_digits p text a b c l m n dx dy dz)

abbrev six_digits : ℕ → ℕ → ℕ → List ℕ
six_digits x y z =
    (48 + x / 10)
    ∷ (48 + x % 10)
    ∷ (48 + y / 10)
    ∷ (48 + y % 10)
    ∷ (48 + z / 10)
    ∷ (48 + z % 10)
    ∷ []

printed_six :
    (x y z : ℕ)
    → x < 100
    → y < 100
    → z < 100
    → zfill (printed x) ++ (zfill (printed y) ++ (zfill (printed z) ++ [])) ≡ six_digits x y z
printed_six x y z hx hy hz = rw (zfill-printed x hx, zfill-printed y hy, zfill-printed z hz) refl

digit-sub : (d : ℕ) → 48 + d - 48 ≡ d
digit-sub d = omega arith

number-six : (x y z : ℕ) → number (six_digits x y z) ≡ x * 10000 + y * 100 + z
number-six x y z = omega arith

module _ {F : Type 0} (suffixes : List ((List ℕ → Bool) × F)) where
  padded :
      (right_pad : Bool) (stream : List ℕ) (x y z : ℕ)
      → stream_number suffixes right_pad stream (six_digits x y z)
        ≡ some (x * 10000 + y * 100 + z, first_suffix suffixes suffixes stream)
  padded true stream x y z =
      ap (λ n. some (n, first_suffix suffixes suffixes stream)) (number-six x y z)
  padded false stream x y z =
      ap (λ n. some (n, first_suffix suffixes suffixes stream)) (number-six x y z)

  -- The version of a stream that ends in x.y.z, with numbers below 100 printed as usual behind a
  -- text without digits, is x * 10000 + y * 100 + z, padded or not, with the suffix of the first
  -- expression that matches the stream.
  pub get_stream_version-printed_triple :
      (p : List ℕ) (x y z : ℕ) (right_pad : Bool)
      → All (λ c. is_digit c ≡ false) p
      → x < 100
      → y < 100
      → z < 100
      → get_stream_version suffixes (p ++ printed_triple x y z) right_pad
        ≡ some (x * 10000 + y * 100 + z, first_suffix suffixes suffixes (p ++ printed_triple x y z))
  unfolding get_stream_version
  get_stream_version-printed_triple p x y z right_pad text hx hy hz =
      ap (stream_number suffixes right_pad (p ++ printed_triple x y z))
        (printed_digits p x y z text hx hy hz ∙ printed_six x y z hx hy hz)
      ∙ padded right_pad (p ++ printed_triple x y z) x y z
