-- ===== src/Streams/Prefixed.antt =====
-- `get_prefixed_version` of module_build_service/web/submit.py.
use fm_orchestrator.Common.{
  ℕ, zero, suc, ◌+◌, ◌*◌, ◌/◌, Bool, false, Option, none, some, String, List, [], ◌∷◌, ltb,
  is_nonempty_text, if◌then◌else◌, string_eq, ◌==◌, codes,
}
use fm_orchestrator.Streams.Version.{get_stream_version}

-- len(str(n)). The fuel is the number itself, which is at least the number of its digits less one.
abbrev pub width_within : ℕ → ℕ → ℕ
width_within zero n = 1
width_within (suc fuel) n =
    let rest = width_within fuel (n / 10) in if ltb n 10 then 1 else suc rest

unfoldable pub width : ℕ → ℕ
width n = width_within n n

abbrev pub power_of_ten : ℕ → ℕ
power_of_ten zero = 1
power_of_ten (suc n) = 10 * power_of_ten n

-- int(str(prefix) + str(version))
unfoldable pub joined_numbers : ℕ → ℕ → ℕ
unfolding width
joined_numbers prefix version = prefix * power_of_ten (width version) + version

-- GLib.MAXUINT64
abbrev pub max_uint64 : ℕ
max_uint64 = 18446744073709551615

-- What a base module has in the buildrequires of the xmd: nothing, or a stream, which may be empty.
abbrev pub stream_of : String → List (String × String) → String
stream_of name [] = ""
stream_of name ((n, stream) ∷ requires) =
    let rest = stream_of name requires in if n == name then stream else rest

-- The loop over conf.base_module_names, up to the first that is buildrequired.
abbrev pub base_module_stream : List String → List (String × String) → Option String
base_module_stream [] requires = none
base_module_stream (name ∷ names) requires =
    let later = base_module_stream names requires in
    let stream = stream_of name requires in if is_nonempty_text stream then some stream else later

module _ {F : Type 0} (suffixes : List ((List ℕ → Bool) × F)) where
  -- The rest, with the version of the stream, whose suffix `floor` takes away.
  abbrev pub with_prefix : ℕ → Option (ℕ × Option F) → ℕ
  with_prefix version none = version
  with_prefix version (some (prefix, suffix)) =
      let new_version = joined_numbers prefix version in
      if ltb max_uint64 new_version then version else new_version

  abbrev pub with_stream : ℕ → Option String → ℕ
  with_stream version none = version
  with_stream version (some stream) =
      with_prefix version (get_stream_version suffixes (codes stream) false)

  -- The buildrequires are missing where the xmd has none; with no name of a base module the loop
  -- does not look at them.
  unfoldable pub get_prefixed_version : List String → Option (List (String × String)) → ℕ → ℕ
  unfolding joined_numbers get_stream_version codes
  get_prefixed_version base_module_names none version = version
  get_prefixed_version base_module_names (some requires) version =
      with_stream version (base_module_stream base_module_names requires)
