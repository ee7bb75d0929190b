-- ===== src/Streams/Version.antt =====
-- `ModuleBuild.get_stream_version` of module_build_service/common/models.py. A stream is the list
-- of its code points; a digit is an ASCII digit. The float is the number that the digits stand
-- for and the suffix that is added to it, if any; below 2 ^ 53 a float is exact.
use fm_orchestrator.Common.{
  ℕ, zero, suc, ◌+◌, ◌-◌, ◌*◌, Bool, true, false, ◌&&◌, Option, none, some, List, [], ◌∷◌, ◌++◌,
  leb, is_nonempty, not, if◌then◌else◌, nat_eq, ◌==◌, concat_map, length, fold_each,
}

-- A character 0 to 9; the digits of other scripts, which str.isdigit accepts too, are left out.
abbrev pub is_digit : ℕ → Bool
is_digit c = leb 48 c && leb c 57

-- The loop over the characters; the flag tells whether the version has begun.
unfoldable pub scan : Bool → List ℕ → List ℕ
scan started [] = []
scan started (c ∷ s) =
    let inside = scan true s in
    let outside = scan false s in
    if is_digit c
    then c ∷ inside
    else if started
    then (if c == 46 then c ∷ inside else [])
    else outside

-- version.rstrip(".")
unfoldable pub rstrip_dots : List ℕ → List ℕ
rstrip_dots [] = []
rstrip_dots (c ∷ s) =
    let rest = rstrip_dots s in if (c == 46) && not (is_nonempty rest) then [] else c ∷ rest

abbrev pub cons_first : ℕ → List (List ℕ) → List (List ℕ)
cons_first c [] = (c ∷ []) ∷ []
cons_first c (section ∷ sections) = (c ∷ section) ∷ sections

-- version.split(".")
unfoldable pub split_dots : List ℕ → List (List ℕ)
split_dots [] = [] ∷ []
split_dots (c ∷ s) = let rest = split_dots s in if c == 46 then [] ∷ rest else cons_first c rest

-- section.zfill(2)
abbrev pub zfill : List ℕ → List ℕ
zfill [] = 48 ∷ 48 ∷ []
zfill (c ∷ []) = 48 ∷ c ∷ []
zfill (c ∷ d ∷ s) = c ∷ d ∷ s

abbrev pub zeros : ℕ → List ℕ
zeros zero = []
zeros (suc n) = 48 ∷ zeros n

-- version += (6 - len(version)) * "0", where a negative number of zeros is none.
abbrev pub pad_right : List ℕ → List ℕ
pad_right version = version ++ zeros (6 - length version)

-- float(version)
abbrev pub number : List ℕ → ℕ
number = λ digits. fold_each (λ c n. n * 10 + (c - 48)) digits 0

-- The version as digits, before it is padded.
unfoldable pub version_digits : List ℕ → List ℕ
unfolding scan rstrip_dots split_dots
version_digits stream = concat_map zfill (split_dots (rstrip_dots (scan false stream)))

-- Each entry of conf.stream_suffixes: whether its expression matches a stream, and its suffix.
module _ {F : Type 0} (suffixes : List ((List ℕ → Bool) × F)) where
  unfoldable pub first_suffix : List ((List ℕ → Bool) × F) → List ℕ → Option F
  first_suffix [] stream = none
  first_suffix ((matches, suffix) ∷ rest) stream =
      let later = first_suffix rest stream in if matches stream then some suffix else later

  abbrev pub stream_number : Bool → List ℕ → List ℕ → Option (ℕ × Option F)
  stream_number right_pad stream [] = none
  stream_number right_pad stream (c ∷ version) = some (
    number (if right_pad then pad_right (c ∷ version) else c ∷ version),
    first_suffix suffixes stream,
  )

  unfoldable pub get_stream_version : List ℕ → Bool → Option (ℕ × Option F)
  unfolding version_digits first_suffix
  get_stream_version stream right_pad = stream_number right_pad stream (version_digits stream)
