-- ===== src/Expansion/Compatible.antt =====
-- `get_compatible_base_module_mmds` of module_build_service/common/resolve.py.
use fm_orchestrator.Common.{
  Bool, false, any, String, List, [], ◌∷◌, ◌^^◌, string_eq, ◌==◌, if◌then◌else◌,
}
use fm_orchestrator.Models.{BuildState}

-- The parts of the modulemd document of a base module that the function reads; the virtual streams
-- stand in xmd["mbs"].
pub record BaseModule : Type 0 where
  pub name : String
  pub stream : String
  pub virtual_streams : List String

abbrev pub base_ns : BaseModule → String
base_ns m = m.name ^^ ":" ^^ m.stream

-- resolver.get_compatible_base_module_modulemds: the module, stream_version_lte, the virtual
-- streams and the state.
abbrev pub CompatibleQuery : Type 0
CompatibleQuery = BaseModule → Bool → List String → BuildState → List BaseModule

pub record Compatible : Type 0 where
  pub ready : List BaseModule
  pub garbage : List BaseModule

abbrev pub was_seen : List String → BaseModule → Bool
was_seen seen m = any (λ s. s == base_ns m) seen

-- The modules of the answer that were not seen, and what is seen after them.
unfoldable pub unseen : List String → List BaseModule → List BaseModule × List String
unseen seen [] = ([], seen)
unseen seen (m ∷ ms) =
    let skipped = unseen seen ms in
    let (chunk, seen') = unseen (base_ns m ∷ seen) ms in
    if was_seen seen m then skipped else (m ∷ chunk, seen')

-- The loop over the states: "ready", and "garbage" where modules need not be compatible.
abbrev pub query_states :
    CompatibleQuery → (only_compatible : Bool) → BaseModule → List String → List String → Compatible
query_states query only_compatible base virtual_streams seen =
    let (ready, seen') =
      unseen seen (query base only_compatible virtual_streams BuildState.ready) in
    let (garbage, _) = unseen seen' (query base false virtual_streams BuildState.garbage) in
    record { ready = base ∷ ready; garbage = if only_compatible then [] else garbage }

abbrev pub with_virtual_streams :
    CompatibleQuery → Bool → BaseModule → List String → List String → Compatible
with_virtual_streams query only_compatible base [] seen = record { ready = base ∷ []; garbage = [] }
with_virtual_streams query only_compatible base (v ∷ vs) seen =
    query_states query only_compatible base (v ∷ vs) seen

-- `only_compatible` is conf.allow_only_compatible_base_modules.
unfoldable pub get_compatible_base_module_mmds :
    CompatibleQuery → (only_compatible : Bool) → BaseModule → (ignore_ns : List String) → Compatible
get_compatible_base_module_mmds query only_compatible base ignore_ns =
    with_virtual_streams query only_compatible base base.virtual_streams (base_ns base ∷ ignore_ns)
