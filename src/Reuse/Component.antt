-- ===== src/Reuse/Component.antt =====
-- `get_reusable_component` of module_build_service/scheduler/reuse.py.
use Prim.Native.String as Str
use Prim.Native.Nat.{Ordering}
use fm_orchestrator.Common.{
  ℕ, zero, suc, ◌-◌, ◌≡◌, ◌↔◌, Bool, true, false, not, ◌&&◌, Option, none, some, String, List, [],
  ◌∷◌, filter, any, all, if◌then◌else◌, nat_eq, string_eq, option_eq, list_eq, ◌==◌, EqualityTest,
  is_truthy, first, option_beq_iff, list_beq_iff, arith, ◌^^◌, eq_iff,
}
use fm_orchestrator.Exec.{
  Exec, Result, ok, raised, raise, query_error, attribute_error, pure, gets, lift, ◌>>=◌, ◌>>◌,
}
use fm_orchestrator.Models.{
  RebuildStrategy, Mmd, ModuleBuild, ComponentBuild, World, component_builds, log_component_message,
  log_module_message,
}
use fm_orchestrator.Builder.{is_koji_or_test}
use fm_orchestrator.Reuse.Source.{ReuseEnv, get_reusable_module, is_changed_and_after}

-- sorted(arches)
abbrev insert_text : String → List String → List String
insert_text s [] = s ∷ []
insert_text s (t ∷ ts) = elim (Str.compare t s) [
  | Ordering.lt ↦ t ∷ insert_text s ts
  | _ ↦ s ∷ t ∷ ts
]

unfoldable pub sorted_texts : List String → List String
sorted_texts [] = []
sorted_texts (s ∷ ts) = insert_text s (sorted_texts ts)

-- Equality of the sets of two lists' items.
abbrev pub contains {ℓ} : {A : Type ℓ} ⦃e : EqualityTest A⦄ → List A → A → Bool
contains xs a = any (λ x. x == a) xs

abbrev pub is_same_set {ℓ} : {A : Type ℓ} ⦃e : EqualityTest A⦄ → List A → List A → Bool
is_same_set xs ys = all (contains ys) xs && all (contains xs) ys

-- The tuple (name, commit, sorted arches) of a component.
abbrev pub Signature : Type 0
Signature = String × Option String × List String

abbrev signature_beq : Signature → Signature → Bool
signature_beq (p, r, a) (q, s, b) = p == q && r == s && a == b

pub signature_beq_iff : (x y : Signature) → (signature_beq x y ≡ true) ↔ (x ≡ y)
signature_beq_iff (p, r, a) (q, s, b) =
    let names = eq_iff p q in
    let refs = option_beq_iff string_eq r s in
    let arches = list_beq_iff string_eq a b in
    ((λ h. ground (arith, names, refs, arches)), (λ h. ground (arith, names, refs, arches)))

instance abbrev pub signature_eq : EqualityTest Signature
signature_eq = record { is_equal = signature_beq; is_equal_iff = signature_beq_iff }

-- mmd.get_rpm_component(name).get_arches(); the method of None is an AttributeError
unfoldable pub rpm_arches : String → List (String × List String) → Result (List String)
rpm_arches name [] = raised attribute_error
rpm_arches name ((n, arches) ∷ rest) = if n == name then ok arches else rpm_arches name rest

abbrev pub then_ok : {A B : Type 0} → Result A → (A → Result B) → Result B
then_ok (ok a) f = f a
then_ok (raised e) f = raised e

abbrev pub signature_of : Mmd → ComponentBuild → Result Signature
signature_of mmd c =
    then_ok (rpm_arches c.package_name mmd.rpm_arches)
      (λ arches. ok (c.package_name, c.ref, sorted_texts arches))

-- The set comprehension over one batch.
unfoldable pub batch_signatures : Mmd → ℕ → List ComponentBuild → Result (List Signature)
unfolding rpm_arches sorted_texts
batch_signatures mmd batch [] = ok []
batch_signatures mmd batch (c ∷ cs) =
    let rest = batch_signatures mmd batch cs in
    if c.batch == batch
    then then_ok (signature_of mmd c) (λ s. then_ok rest (λ ss. ok (s ∷ ss)))
    else rest

-- The loop over the batches from `batch` on, `n` of them: whether both module builds have the
-- same set in each of them. The sets are all computed before the first comparison.
unfoldable pub same_batches :
    Mmd → Mmd → List ComponentBuild → List ComponentBuild → ℕ → ℕ → Result Bool
unfolding batch_signatures
same_batches mmd old_mmd new_builds old_builds batch zero = ok true
same_batches mmd old_mmd new_builds old_builds batch (suc n) =
    then_ok (batch_signatures mmd batch new_builds) (λ new_set.
      then_ok (batch_signatures old_mmd batch old_builds) (λ old_set.
        then_ok (same_batches mmd old_mmd new_builds old_builds (suc batch) n)
          (λ rest. ok (is_same_set old_set new_set && rest))))

-- ComponentBuild.from_component_name
unfoldable pub from_component_name : String → ℕ → World → Option ComponentBuild
from_component_name name module_id w =
    first (filter (λ c. c.package_name == name && c.module_id == module_id) w.components)

abbrev pub one : List ComponentBuild → Exec World ComponentBuild
one (c ∷ []) = pure c
one _ = raise query_error

abbrev pub is_all : RebuildStrategy → Bool
is_all RebuildStrategy.all_components = true
is_all _ = false

abbrev pub unusable_new : String → String
unusable_new name =
    "Cannot reuse the component " ^^ name ^^ " because it can't be found in the database"

abbrev pub unusable_previous : String → String
unusable_previous name =
    "Cannot reuse the component " ^^ name
    ^^ " because a previous build of it can't be found in the database"

-- A row that has a batch and a commit.
abbrev pub is_usable : Option ComponentBuild → Bool
is_usable none = false
is_usable (some c) = not (c.batch == 0) && is_truthy c.ref

module _ (m : ModuleBuild) (name : String) (previous : ModuleBuild) where
  abbrev pub refuse : ComponentBuild → String → Exec World (Option ComponentBuild)
  refuse c text = do log_component_message c text; pure none

  -- The last checks: the architectures, and the query for the row to reuse.
  abbrev pub check_arches : ComponentBuild → Exec World (Option ComponentBuild)
  check_arches new = do
    arches ← lift (rpm_arches name m.mmd.rpm_arches)
    old_arches ← lift (rpm_arches name previous.mmd.rpm_arches)
    if is_same_set arches old_arches
        then (do
          c ← (λ w.
              one (filter (λ c. c.package_name == name && c.module_id == previous.id) w.components)
                w)
          pure (some c))
        else refuse new
            "Cannot reuse the component because its architectures have changed since the compatible module build"

  abbrev pub check_batches : ComponentBuild → Exec World (Option ComponentBuild)
  check_batches new = do
    new_builds ← gets (component_builds m)
    old_builds ← gets (component_builds previous)
    same ← lift (same_batches m.mmd previous.mmd new_builds old_builds 2 (new.batch - 2))
    if same
        then check_arches new
        else refuse new
            "Cannot reuse the component because a component in a previous batch has been added, removed, or rebuilt"

  abbrev pub check_strategy : ComponentBuild → ComponentBuild → Exec World (Option ComponentBuild)
  check_strategy new prev =
      if is_changed_and_after m.rebuild_strategy
      then (if prev.batch == new.batch
          then (if m.mmd.rpm_macros == previous.mmd.rpm_macros
              then check_batches new
              else refuse new
                  "Cannot reuse the component because the modulemd's macros are different than those of the compatible module build")
          else refuse new
              "Cannot reuse the component because it is being built in a different batch than in the compatible module build")
      else check_arches new

  abbrev pub check_refs : ComponentBuild → ComponentBuild → Exec World (Option ComponentBuild)
  check_refs new prev =
      if prev.ref == new.ref
      then check_strategy new prev
      else refuse new
          "Cannot reuse the component because the commit hash changed since the last build"

  abbrev pub check_previous :
      ComponentBuild → Option ComponentBuild → Exec World (Option ComponentBuild)
  check_previous new none = refuse new (unusable_previous name)
  check_previous new (some prev) =
      if is_usable (some prev) then check_refs new prev else refuse new (unusable_previous name)

  abbrev pub check_new : Option ComponentBuild → Exec World (Option ComponentBuild)
  check_new none = do log_module_message m (unusable_new name); pure none
  check_new (some new) =
      if is_usable (some new)
      then (do prev ← gets (from_component_name name previous.id); check_previous new prev)
      else (do log_module_message m (unusable_new name); pure none)

  -- The checks once the earlier module build is known.
  unfoldable pub check_component : Exec World (Option ComponentBuild)
  unfolding from_component_name same_batches component_builds log_component_message
      log_module_message
  check_component = do new ← gets (from_component_name name m.id); check_new new

module _ (env : ReuseEnv) (m : ModuleBuild) (name : String) where
  abbrev pub check_found :
      ModuleBuild × Option ModuleBuild → Exec World (ModuleBuild × Option ComponentBuild)
  check_found (m', none) = do
    log_module_message m'
        ("Cannot reuse because no previous build of module " ^^ m'.name ^^ " found!")
    pure (m', none)
  check_found (m', some previous) = do c ← check_component m' name previous; pure (m', c)

  -- The module comes back, since `get_reusable_module` changes it.
  unfoldable pub get_reusable_component :
      Option ModuleBuild → Exec World (ModuleBuild × Option ComponentBuild)
  unfolding check_component get_reusable_module
  get_reusable_component previous =
      if is_koji_or_test env.system
      then (if is_all m.rebuild_strategy
          then (do
            log_module_message m (
                "Cannot reuse the component " ^^ name
                ^^ " because the module rebuild strategy is \"all\".")
            pure (m, none))
          else elim previous [
            | none ↦ (do found ← get_reusable_module env m; check_found found)
            | some p ↦ check_found (m, some p)
          ])
      else pure (m, none)
