-- ===== src/Streams/Bounds.antt =====
-- The number that `get_prefixed_version` of module_build_service/web/submit.py gives: its bound,
-- and its parts.
use fm_orchestrator.Common.{
  Bool, false, codes, ℕ, zero, suc, ◌+◌, ◌*◌, ◌/◌, ◌%◌, ◌≤◌, ◌<◌, ◌≡◌, refl, ◌⊎◌, inl, inr,
  Bool-cases, Option, none, some, String, List, ltb, arith,
}
use fm_orchestrator.Streams.Version.{get_stream_version}
use fm_orchestrator.Streams.Prefixed.{
  width, width_within, power_of_ten, joined_numbers, max_uint64, base_module_stream, with_prefix,
  with_stream, get_prefixed_version,
}

tens : (n m : ℕ) → n / 10 < m → n < 10 * m
tens n m h = omega arith

width_within-lt : (fuel n : ℕ) → n ≤ fuel → n < power_of_ten (width_within fuel n)
width_within-lt zero n h = omega arith
width_within-lt (suc fuel) n h = elim (Bool-cases (ltb n 10)) [
  | inl e ↦ rw e (ground arith)
  | inr e ↦ rw e (
      tens n (power_of_ten (width_within fuel (n / 10)))
        (width_within-lt fuel (n / 10) (ground arith)))
]

pub width-lt : (n : ℕ) → n < power_of_ten (width n)
unfolding width
width-lt n = width_within-lt n n (omega arith)

-- The version is prefixed: the number fits into 64 bits, and both parts can be read back from it.
pub record HasPrefix (prefix version v : ℕ) : Type 0 where
  pub fits : v ≤ max_uint64
  pub front : v / power_of_ten (width version) ≡ prefix
  pub back : v % power_of_ten (width version) ≡ version

div_joined : (p m v : ℕ) → v < m → (p * m + v) / m ≡ p
div_joined p m v h = grind arith

mod_joined : (p m v : ℕ) → v < m → (p * m + v) % m ≡ v
mod_joined p m v h = grind arith

module _ {F : Type 0} (suffixes : List ((List ℕ → Bool) × F)) where
  -- The result for the version of the stream. Where the prefixed version would not fit, the version
  -- stays.
  abbrev pub Outcome : ℕ → Option (ℕ × Option F) → ℕ → Type 0
  Outcome version none v = v ≡ version
  Outcome version (some (prefix, suffix)) v =
      ((max_uint64 < prefix * power_of_ten (width version) + version) × (v ≡ version))
      ⊎ HasPrefix prefix version v

  with_prefix-Outcome :
      (version : ℕ) (found : Option (ℕ × Option F))
      → Outcome version found (with_prefix suffixes version found)
  unfolding joined_numbers
  with_prefix-Outcome version none = refl
  with_prefix-Outcome version (some (prefix, suffix)) =
      let m = power_of_ten (width version) in
      elim (Bool-cases (ltb max_uint64 (prefix * m + version))) [
        | inl e ↦ rw e (inl (ground arith, refl))
        | inr e ↦ rw e (
            inr (record {
              fits = ground arith;
              front = div_joined prefix m version (width-lt version);
              back = mod_joined prefix m version (width-lt version);
            }))
      ]

  -- The result for the stream of the base module, where there is one.
  abbrev pub IsStreamPrefixed : ℕ → Option String → ℕ → Type 0
  IsStreamPrefixed version none v = v ≡ version
  IsStreamPrefixed version (some stream) v =
      Outcome version (get_stream_version suffixes (codes stream) false) v

  with_stream-IsStreamPrefixed :
      (version : ℕ) (stream : Option String)
      → IsStreamPrefixed version stream (with_stream suffixes version stream)
  with_stream-IsStreamPrefixed version none = refl
  with_stream-IsStreamPrefixed version (some stream) =
      with_prefix-Outcome version (get_stream_version suffixes (codes stream) false)

  -- The result for the buildrequires of the xmd, where there are any.
  pub IsPrefixed : List String → Option (List (String × String)) → ℕ → ℕ → Type 0
  IsPrefixed names none version v = v ≡ version
  IsPrefixed names (some requires) version v =
      IsStreamPrefixed version (base_module_stream names requires) v

  -- get_prefixed_version takes the stream of the first base module that is buildrequired. Where
  -- there is none, or its stream has no version, the version stays as it is. Otherwise the number
  -- of the stream is put in front of it: the new version is at most 2 ^ 64 - 1, and it ends in
  -- the digits of the version, with the number of the stream before them; only where that number
  -- would exceed 2 ^ 64 - 1, the version stays as it is.
  pub get_prefixed_version-IsPrefixed :
      (names : List String) (requires : Option (List (String × String))) (version : ℕ)
      → IsPrefixed names requires version (get_prefixed_version suffixes names requires version)
  unfolding IsPrefixed get_prefixed_version
  get_prefixed_version-IsPrefixed names none version = refl
  get_prefixed_version-IsPrefixed names (some requires) version =
      with_stream-IsStreamPrefixed version (base_module_stream names requires)
