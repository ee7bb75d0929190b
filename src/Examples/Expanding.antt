-- ===== src/Examples/Expanding.antt =====
-- The theorems on common/resolve.py and on generate_koji_tag applied to small inputs.
use fm_orchestrator.Common.{ℕ, ◌≡◌, refl, ◌≤◌, Bool, true, false, String, [], ◌∷◌, List, arith, ◌+◌}
use fm_orchestrator.Models.{BuildState}
use fm_orchestrator.Streams.{StreamBuild}
use fm_orchestrator.Expansion.Streams.{
  Expanded, expand_single_mse_streams, take_streams, get_last_build_in_all_streams,
}
use fm_orchestrator.Expansion.Compatible.{BaseModule, unseen, get_compatible_base_module_mmds}
use fm_orchestrator.Expansion.Strict.{IsUnambiguous, expand-IsUnambiguous}
use fm_orchestrator.Expansion.Offered.{offered, expand-offered}
use fm_orchestrator.Expansion.Fresh.{IsCompatible, base_mmds-IsCompatible}
use fm_orchestrator.Builder.TagName.{
  count_chars, tag_suffix, decimal_within, generate_koji_tag, generate_koji_tag-fits,
}
use fm_orchestrator.Common.{◌^^◌}

abbrev perl : ℕ → String → StreamBuild
perl id stream = record {
  id = id;
  name = "perl";
  stream = stream;
  version = 1;
  context = "c";
  state = BuildState.ready;
  stream_version = 0;
  virtual_streams = [];
}

abbrev perls : List StreamBuild
perls = perl 3 "5.24" ∷ perl 2 "5.26" ∷ perl 1 "5.24" ∷ []

expand-IsUnambiguous_example :
    IsUnambiguous
      (expand_single_mse_streams perls "perl" ("5.24" ∷ "5.26" ∷ []) (("perl", "5.24") ∷ []) false)
expand-IsUnambiguous_example =
    expand-IsUnambiguous perls "perl" ("5.24" ∷ "5.26" ∷ []) (("perl", "5.24") ∷ []) false refl

default_run :
    expand_single_mse_streams perls "perl" ("5.24" ∷ "5.26" ∷ []) (("perl", "5.24") ∷ []) false
    ≡ Expanded.expanded ("5.24" ∷ [])
unfolding expand_single_mse_streams take_streams get_last_build_in_all_streams
default_run = refl

strict_run : expand_single_mse_streams perls "perl" [] [] true ≡ Expanded.ambiguous
unfolding expand_single_mse_streams take_streams get_last_build_in_all_streams
strict_run = refl

expand-offered_example :
    expand_single_mse_streams perls "perl" ("-5.26" ∷ []) [] false
    ≡ Expanded.expanded (offered perls "perl" ("-5.26" ∷ []))
expand-offered_example =
    expand-offered perls "perl" ("-5.26" ∷ []) []
      ((λ h. cc, (λ h. cc, tt)), ((λ h. cc, tt), (tt, tt))) refl

excluding_run :
    expand_single_mse_streams perls "perl" ("-5.26" ∷ []) [] false ≡ Expanded.expanded ("5.24" ∷ [])
unfolding expand_single_mse_streams take_streams get_last_build_in_all_streams
excluding_run = refl

abbrev platform : String → BaseModule
platform stream = record { name = "platform"; stream = stream; virtual_streams = "el8" ∷ [] }

abbrev answers : BaseModule → Bool → List String → BuildState → List BaseModule
answers base lte streams BuildState.ready = platform "el8.0" ∷ platform "el8.1" ∷ []
answers base lte streams _ = platform "el8.0" ∷ platform "el8.2" ∷ []

base_mmds-IsCompatible_example :
    IsCompatible answers false
      (platform "el8.1")
      ("el8" ∷ [])
      []
      (get_compatible_base_module_mmds answers false (platform "el8.1") [])
base_mmds-IsCompatible_example = base_mmds-IsCompatible answers (platform "el8.1") [] false

compatible_run :
    get_compatible_base_module_mmds answers false (platform "el8.1") []
    ≡ record { ready = platform "el8.1" ∷ platform "el8.0" ∷ []; garbage = platform "el8.2" ∷ [] }
unfolding get_compatible_base_module_mmds unseen
compatible_run = refl

room : 29 + count_chars (tag_suffix true 7) ≤ 40
unfolding count_chars tag_suffix decimal_within
room = omega arith

generate_koji_tag-fits_example :
    count_chars (
      generate_koji_tag
        (λ s. "0123456789abcdef0123456789abcdef01234567")
        "perl"
        "5.26"
        "1"
        "c0ffee"
        40
        true
        7
      ^^ "-build")
    ≤ 40
generate_koji_tag-fits_example =
    generate_koji_tag-fits (λ s. "0123456789abcdef0123456789abcdef01234567") "perl" "5.26" "1"
      "c0ffee" 40 true 7 room

short_run :
    generate_koji_tag
      (λ s. "0123456789abcdef0123456789abcdef01234567")
      "perl"
      "5.26"
      "1"
      "c0ffee"
      40
      true
      17
    ≡ "scrmod-perl-5.26-1-c0ffee+17"
unfolding generate_koji_tag
short_run = refl

hashed_run :
    generate_koji_tag
      (λ s. "0123456789abcdef0123456789abcdef01234567")
      "perl"
      "5.26"
      "1"
      "c0ffee"
      29
      false
      0
    ≡ "module-0123456789abcdef"
unfolding generate_koji_tag
hashed_run = refl
