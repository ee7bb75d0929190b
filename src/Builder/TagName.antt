-- ===== src/Builder/TagName.antt =====
-- `generate_koji_tag` of module_build_service/builder/KojiModuleBuilder.py; the SHA-1 digest of a
-- text, in hexadecimal digits, is an argument.
use Prim.Native.String as Str
use Prim.Native.String.append
use fm_orchestrator.Common.{
  ℕ, zero, suc, ◌+◌, ◌/◌, ◌%◌, ◌≤◌, ◌≡◌, refl, Bool, true, false, String, List, [], ◌∷◌, ltb,
  nat_eq, if◌then◌else◌, ◌^^◌, arith, inl, inr, Bool-cases,
}

-- len(text)
unfoldable pub count_chars : String → ℕ
count_chars Str.[] = 0
count_chars (Str.◌∷◌ c s) = suc (count_chars s)

-- text[:n]
unfoldable pub take_chars : ℕ → String → String
take_chars zero s = ""
take_chars (suc n) Str.[] = ""
take_chars (suc n) (Str.◌∷◌ c s) = Str.◌∷◌ c (take_chars n s)

abbrev pub drop_chars : ℕ → String → String
drop_chars zero s = s
drop_chars (suc n) Str.[] = ""
drop_chars (suc n) (Str.◌∷◌ c s) = drop_chars n s

-- str(number); a number has at most as many digits as it counts ones, and one.
unfoldable pub decimal_within : ℕ → ℕ → String
unfolding take_chars
decimal_within zero n = take_chars 1 (drop_chars n "0123456789")
decimal_within (suc fuel) n =
    let front = decimal_within fuel (n / 10) in
    let digit = take_chars 1 (drop_chars (n % 10) "0123456789") in
    if ltb n 10 then digit else front ^^ digit

abbrev pub decimal : ℕ → String
decimal n = decimal_within n n

-- separator.join(texts)
abbrev pub joined_by : String → List String → String
joined_by separator [] = ""
joined_by separator (s ∷ []) = s
joined_by separator (s ∷ t ∷ r) = s ^^ separator ^^ joined_by separator (t ∷ r)

abbrev pub tag_prefix : Bool → String
tag_prefix scratch = if scratch then "scrmod-" else "module-"

unfoldable pub tag_suffix : Bool → ℕ → String
unfolding decimal_within
tag_suffix true scratch_id = "+" ^^ decimal scratch_id
tag_suffix false scratch_id = ""

unfoldable pub generate_koji_tag :
    (sha1 : String → String) (name stream version context : String) (max_length : ℕ)
    (scratch : Bool) (scratch_id : ℕ)
    → String
unfolding count_chars take_chars tag_suffix
generate_koji_tag sha1 name stream version context max_length scratch scratch_id =
    let prefix = tag_prefix scratch in
    let suffix = tag_suffix scratch scratch_id in
    let nsvc_list = name ∷ stream ∷ version ∷ context ∷ [] in
    let nsvc_tag = prefix ^^ joined_by "-" nsvc_list ^^ suffix in
    let nsvc_hash = take_chars 16 (sha1 (joined_by "." nsvc_list)) in
    if ltb max_length (count_chars nsvc_tag + count_chars "-build")
    then prefix ^^ nsvc_hash ^^ suffix
    else nsvc_tag

count_chars-append : (s t : String) → count_chars (s ^^ t) ≡ count_chars s + count_chars t
unfolding count_chars
count_chars-append Str.[] t = rw (append.nil t) (omega arith)
count_chars-append (Str.◌∷◌ c s) t =
    let rest = count_chars-append s t in rw (append.cons c s t) (omega arith)

count_chars-take_chars : (n : ℕ) (s : String) → count_chars (take_chars n s) ≤ n
unfolding count_chars take_chars
count_chars-take_chars zero s = omega arith
count_chars-take_chars (suc n) Str.[] = omega arith
count_chars-take_chars (suc n) (Str.◌∷◌ c s) =
    let shorter = count_chars-take_chars n s in omega arith

count_chars-tag_prefix : (scratch : Bool) → count_chars (tag_prefix scratch) ≡ 7
unfolding count_chars
count_chars-tag_prefix true = refl
count_chars-tag_prefix false = refl

count_chars-build : count_chars "-build" ≡ 6
unfolding count_chars
count_chars-build = refl

hashed_bound :
    (scratch : Bool) (nsvc_hash suffix : String) (max_length : ℕ)
    → count_chars nsvc_hash ≤ 16
    → 29 + count_chars suffix ≤ max_length
    → count_chars (tag_prefix scratch ^^ nsvc_hash ^^ suffix) + count_chars "-build" ≤ max_length
hashed_bound scratch nsvc_hash suffix max_length h k =
    let front = count_chars-append (tag_prefix scratch) (nsvc_hash ^^ suffix) in
    let back = count_chars-append nsvc_hash suffix in
    let seven = count_chars-tag_prefix scratch in let six = count_chars-build in omega arith

-- generate_koji_tag gives a tag that fits into the maximal length together with the "-build" of
-- the build tag, whatever name, stream, version and context the module has. The maximal length
-- has room for the hashed form: the prefix, 16 digits, the suffix of a scratch build and
-- "-build".
pub generate_koji_tag-fits :
    (sha1 : String → String) (name stream version context : String) (max_length : ℕ)
    (scratch : Bool) (scratch_id : ℕ)
    → 29 + count_chars (tag_suffix scratch scratch_id) ≤ max_length
    → count_chars (
        generate_koji_tag sha1 name stream version context max_length scratch scratch_id
        ^^ "-build")
      ≤ max_length
unfolding generate_koji_tag
generate_koji_tag-fits sha1 name stream version context max_length scratch scratch_id h =
    let nsvc_list = name ∷ stream ∷ version ∷ context ∷ [] in
    let suffix = tag_suffix scratch scratch_id in
    let nsvc_tag = tag_prefix scratch ^^ joined_by "-" nsvc_list ^^ suffix in
    let nsvc_hash = take_chars 16 (sha1 (joined_by "." nsvc_list)) in
    elim (Bool-cases (ltb max_length (count_chars nsvc_tag + count_chars "-build"))) [
      | inl e ↦
          rw (e, count_chars-append (tag_prefix scratch ^^ nsvc_hash ^^ suffix) "-build")
            (hashed_bound scratch nsvc_hash suffix max_length
              (count_chars-take_chars 16 (sha1 (joined_by "." nsvc_list))) h)
      | inr e ↦ rw (e, count_chars-append nsvc_tag "-build") (ground arith)
    ]
