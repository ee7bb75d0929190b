-- ===== src/Examples/Submitting.antt =====
-- The theorems on scheduler/submit.py applied to a module that includes another one.
use fm_orchestrator.Common.{
  ℕ, ◌≡◌, refl, subst, true, false, none, some, String, [], ◌∷◌, is_nonempty,
}
use fm_orchestrator.Exec.{ok, raised, type_error}
use fm_orchestrator.Exec.Ensures.{Ensures}
use fm_orchestrator.Submission.{
  RpmComponent, ModuleMd, Plan, Sources, all_components, record_component_builds,
}
use fm_orchestrator.Submission.Order.{Adds}
use fm_orchestrator.Submission.Batches.{record_component_builds-Adds}

abbrev rpm : String → ℕ → RpmComponent
rpm name order = record {
  name = name;
  repository = "https://src/rpms";
  cache = "";
  ref = "master";
  buildorder = order;
  buildonly = false;
  buildafter = [];
  arches = [];
}

abbrev library : ModuleMd
library = record {
  name = "library";
  rpms = rpm "glib" 0 ∷ rpm "gtk" 1 ∷ [];
  modules = [];
  refs = some (("glib", some "a") ∷ ("gtk", some "b") ∷ []);
}

abbrev desktop : ModuleMd
desktop = record {
  name = "desktop";
  rpms = rpm "shell" 2 ∷ rpm "bash" 0 ∷ [];
  modules =
      record { name = "library"; repository = "https://src/modules"; ref = "c"; buildorder = 1 }
      ∷ [];
  refs = some (("shell", some "d") ∷ ("bash", some "e") ∷ []);
}

abbrev sources_with : ModuleMd → Sources
sources_with mmd = record { srpm_overrides = ok []; weight = λ name. 1; fetch = λ url. ok mmd }

abbrev empty_plan : Plan
empty_plan = record { builds = []; main_refs = desktop.refs }

ok_same : (a b : ModuleMd) → ok a ≡ ok b → a ≡ b
ok_same a b e = cc

record_component_builds-Adds_example :
    Ensures
      (Adds 2 empty_plan)
      (λ _. Unit {0})
      (record_component_builds (sources_with library) 3 desktop (some 1) none none empty_plan)
record_component_builds-Adds_example =
    record_component_builds-Adds (sources_with library)
      (λ url inner e.
        subst (λ mmd. is_nonempty (all_components mmd) ≡ true) (ok_same library inner e) refl)
      3 desktop empty_plan refl

last_batch_run :
    (record_component_builds (sources_with library) 3 desktop (some 1) none none empty_plan).0
    ≡ ok (some 6)
unfolding record_component_builds
last_batch_run = refl

-- An included module without components gives no batch, and the next batch cannot be counted.
included_without_components :
    (record_component_builds
      (sources_with (record library { rpms = [] }))
      3
      desktop
      (some 1)
      none
      none
      empty_plan).0
    ≡ raised type_error
unfolding record_component_builds
included_without_components = refl
