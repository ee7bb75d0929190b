-- ===== src/Models/Update.antt =====
-- A loop that writes each row that a query found, as an equation for the whole table: the proofs
-- for the tasks of scheduler/producer.py share it.
use fm_orchestrator.Common.{
  HasDistinct, any, All-filter, fold_each, ℕ, ◌≡◌, ◌≢◌, refl, sym, ◌∙◌, ap, subst, Bool, true,
  false, some, List, [], ◌∷◌, All, map, filter, if◌then◌else◌, inl, inr, Bool-cases, arith, nat_eq,
  nat_beq_iff, All-map,
}
use fm_orchestrator.Models.Rows.{ModuleBuild, ComponentBuild}
use fm_orchestrator.Models.Store.{World, put_module_row, put_component_row}
use fm_orchestrator.Models.Table.{HasDistinctIds}
use fm_orchestrator.Models.Keys.{HasDistinctKeys}
use fm_orchestrator.Models.History.{EdgeRelation, Follows, Moves, extend, module_row}

-- The update of the rows that a test selects.
abbrev pub update_where : {A : Type 0} → (A → Bool) → (A → A) → List A → List A
update_where p f xs = map (λ x. if p x then f x else x) xs

module _ {A : Type 0} where
  -- After an update that leaves no selected row, the query finds nothing.
  pub filter-update_where :
      (p : A → Bool) (f : A → A)
      → ((x : A) → p (f x) ≡ false)
      → (xs : List A) → filter p (update_where p f xs) ≡ []
  filter-update_where p f h [] = refl
  filter-update_where p f h (x ∷ xs) = elim (Bool-cases (p x)) [
    | inl e ↦ rw e (rw (h x) (filter-update_where p f h xs))
    | inr e ↦ rw e (rw e (filter-update_where p f h xs))
  ]

  -- Updates of one kind, for each element of a list in turn.
  pub fold-update_where :
      {B : Type 0} (p : B → A → Bool) (f : A → A)
      → ((b : B) (x : A) → p b (f x) ≡ p b x)
      → ((x : A) → f (f x) ≡ f x)
      → (bs : List B) (xs : List A)
      → fold_each (λ b. update_where (p b) f) bs xs ≡ update_where (λ x. any (λ b. p b x) bs) f xs
  fold-update_where p f same again [] [] = refl
  fold-update_where p f same again [] (x ∷ xs) =
      ap (λ ys. x ∷ ys) (fold-update_where p f same again [] xs)
  fold-update_where p f same again (b ∷ bs) xs =
      fold-update_where p f same again bs (update_where (p b) f xs) ∙ twice xs
    where
      any-same : (cs : List _) (x : A) → any (λ c. p c (f x)) cs ≡ any (λ c. p c x) cs
      any-same [] x = refl
      any-same (c ∷ cs) x = rw (same c x, any-same cs x) refl

      twice :
          (ys : List A)
          → update_where (λ x. any (λ c. p c x) bs) f (update_where (p b) f ys)
            ≡ update_where (λ x. any (λ c. p c x) (b ∷ bs)) f ys
      twice [] = refl
      twice (y ∷ ys) = elim (Bool-cases (p b y)) [
        | inl e ↦
            rw (e, any-same bs y, twice ys)
              (elim (Bool-cases (any (λ c. p c y) bs)) [
                | inl h ↦ rw (h, again y) refl
                | inr h ↦ rw h refl
              ])
        | inr e ↦ rw (e, twice ys) refl
      ]

-- A table with a key, and the assignment that writes a row over the one with its key.
module _ {A : Type 0} (key : A → ℕ) (put : A → List A → List A)
    (put_here : (x y : A) (ys : List A) → key y ≡ key x → put x (y ∷ ys) ≡ x ∷ ys)
    (put_there : (x y : A) (ys : List A) → key y ≢ key x → put x (y ∷ ys) ≡ y ∷ put x ys)
    (f : A → A) (f_keeps_key : (x : A) → key (f x) ≡ key x) where
  abbrev put_each : List A → List A → List A
  put_each = fold_each (λ x. put (f x))

  put_each-there :
      (xs ys : List A) (y : A)
      → All (λ x. key x ≢ key y) xs
      → put_each xs (y ∷ ys) ≡ y ∷ put_each xs ys
  put_each-there [] ys y h = refl
  put_each-there (x ∷ xs) ys y h =
      ap (put_each xs) (put_there (f x) y ys (λ e. h.0 (sym (f_keeps_key x) ∙ sym e)))
      ∙ put_each-there xs (put (f x) ys) y h.1

  pub put_each-update :
      (p : A → Bool) (xs : List A)
      → HasDistinct key xs
      → fold_each (λ x. put (f x)) (filter p xs) xs ≡ update_where p f xs
  put_each-update p [] h = refl
  put_each-update p (x ∷ xs) h =
      let rest = put_each-update p xs h.1 in
      let apart = All-filter (λ y. key y ≢ key x) p xs h.0 in
      elim (Bool-cases (p x)) [
        | inl e ↦ rw e (
            ap (put_each (filter p xs)) (put_here (f x) x xs (sym (f_keeps_key x)))
            ∙ put_each-there (filter p xs) xs (f x)
                (All-map _ _ (filter p xs) (λ y k l. k (l ∙ f_keeps_key x)) apart)
            ∙ ap (λ ys. f x ∷ ys) rest)
        | inr e ↦ rw e (put_each-there (filter p xs) xs x apart ∙ ap (λ ys. x ∷ ys) rest)
      ]

  All-update :
      (p : A → Bool) (i : ℕ) (xs : List A)
      → All (λ y. key y ≢ i) xs
      → All (λ y. key y ≢ i) (update_where p f xs)
  All-update p i [] h = tt
  All-update p i (x ∷ xs) h = ground (arith, f_keeps_key x, All-update p i xs h.1)

  pub HasDistinct-update :
      (p : A → Bool) (xs : List A) → HasDistinct key xs → HasDistinct key (update_where p f xs)
  HasDistinct-update p [] h = tt
  HasDistinct-update p (x ∷ xs) h = (
    subst (λ i. All (λ y. key y ≢ i) (update_where p f xs)) (sym (updated_key p x))
        (All-update p (key x) xs h.0),
    HasDistinct-update p xs h.1,
  )
    where
      updated_key : (p : A → Bool) (x : A) → key (if p x then f x else x) ≡ key x
      updated_key p x = ground (arith, f_keeps_key x)

put_module_here :
    (m n : ModuleBuild) (ns : List ModuleBuild) → n.id ≡ m.id → put_module_row m (n ∷ ns) ≡ m ∷ ns
unfolding put_module_row
put_module_here m n ns e = ground (arith, nat_beq_iff n.id m.id)

put_module_there :
    (m n : ModuleBuild) (ns : List ModuleBuild)
    → n.id ≢ m.id
    → put_module_row m (n ∷ ns) ≡ n ∷ put_module_row m ns
unfolding put_module_row
put_module_there m n ns e = ground (arith, nat_beq_iff n.id m.id)

put_component_here :
    (c d : ComponentBuild) (ds : List ComponentBuild)
    → d.id ≡ c.id
    → put_component_row c (d ∷ ds) ≡ c ∷ ds
unfolding put_component_row
put_component_here c d ds e = ground (arith, nat_beq_iff d.id c.id)

put_component_there :
    (c d : ComponentBuild) (ds : List ComponentBuild)
    → d.id ≢ c.id
    → put_component_row c (d ∷ ds) ≡ d ∷ put_component_row c ds
unfolding put_component_row
put_component_there c d ds e = ground (arith, nat_beq_iff d.id c.id)

-- The same for the two tables of the store.
pub put_modules-update :
    (f : ModuleBuild → ModuleBuild) (keeps : (m : ModuleBuild) → (f m).id ≡ m.id)
    (p : ModuleBuild → Bool) (ms : List ModuleBuild)
    → HasDistinctKeys ms
    → fold_each (λ m. put_module_row (f m)) (filter p ms) ms ≡ update_where p f ms
put_modules-update f keeps =
    put_each-update (λ m. m.id) put_module_row put_module_here put_module_there f keeps

pub put_components-update :
    (f : ComponentBuild → ComponentBuild) (keeps : (c : ComponentBuild) → (f c).id ≡ c.id)
    (p : ComponentBuild → Bool) (cs : List ComponentBuild)
    → HasDistinctIds cs
    → fold_each (λ c. put_component_row (f c)) (filter p cs) cs ≡ update_where p f cs
put_components-update f keeps =
    put_each-update (λ c. c.id) put_component_row put_component_here put_component_there f keeps

pub HasDistinctIds-update :
    (f : ComponentBuild → ComponentBuild) (keeps : (c : ComponentBuild) → (f c).id ≡ c.id)
    (p : ComponentBuild → Bool) (cs : List ComponentBuild)
    → HasDistinctIds cs
    → HasDistinctIds (update_where p f cs)
HasDistinctIds-update f keeps =
    HasDistinct-update (λ c. c.id) put_component_row put_component_here put_component_there f keeps

-- The row with a key, after an update that keeps the keys.
pub module_row-update_where :
    (p : ModuleBuild → Bool) (f : ModuleBuild → ModuleBuild)
    → ((m : ModuleBuild) → (f m).id ≡ m.id)
    → (i : ℕ) (n : ModuleBuild) (ms : List ModuleBuild) → module_row i ms ≡ some n
    → module_row i (update_where p f ms) ≡ some (if p n then f n else n)
module_row-update_where p f keeps i n [] h = absurd cc
module_row-update_where p f keeps i n (m ∷ ms) h =
    ground (arith, keeps m, nat_beq_iff m.id i, module_row-update_where p f keeps i n ms)

pub HasDistinctKeys-update :
    (f : ModuleBuild → ModuleBuild) (keeps : (m : ModuleBuild) → (f m).id ≡ m.id)
    (p : ModuleBuild → Bool) (ms : List ModuleBuild)
    → HasDistinctKeys ms
    → HasDistinctKeys (update_where p f ms)
HasDistinctKeys-update f keeps =
    HasDistinct-update (λ m. m.id) put_module_row put_module_here put_module_there f keeps

-- The history of a row through an update each step of which is allowed.
pub update-Follows :
    (E : EdgeRelation) (i : ℕ) (m : ModuleBuild) (w t : World) (p : ModuleBuild → Bool)
    (f : ModuleBuild → ModuleBuild)
    → t.modules ≡ update_where p f w.modules
    → ((n : ModuleBuild) → p n ≡ true → Moves E n (f n))
    → ((n : ModuleBuild) → (f n).id ≡ n.id)
    → Follows E i m w
    → Follows E i m t
update-Follows E i m w t p f wrote moves keeps h = record {
  current = if p h.current then f h.current else h.current;
  row =
      subst (λ ms. module_row i ms ≡ some (if p h.current then f h.current else h.current))
        (sym wrote) (module_row-update_where p f keeps i h.current w.modules h.row);
  past = elim (Bool-cases (p h.current)) [
    | inl e ↦ rw e (extend E m h.current (f h.current) h.past (moves h.current e))
    | inr e ↦ rw e h.past
  ];
  keys = subst HasDistinctKeys (sym wrote) (HasDistinctKeys-update f keeps p w.modules h.keys);
}
