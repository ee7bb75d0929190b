-- ===== src/Expansion/Offered.antt =====
-- The streams that `expand_single_mse_streams` of module_build_service/common/resolve.py gives
-- where all of them are wanted.
use fm_orchestrator.Common.{
  ℕ, ◌≡◌, ◌≢◌, refl, sym, ap, ◌∙◌, Bool, true, false, not, ◌&&◌, any, All, All-filter, HasDistinct,
  none, is_some, String, List, [], ◌∷◌, map, filter, length, is_nonempty, ltb, nat_eq, string_eq,
  ◌==◌, eq_iff, nat_beq_iff, if◌then◌else◌, inl, inr, Bool-cases,
}
use fm_orchestrator.Models.{BuildState, state_code}
use fm_orchestrator.Streams.{StreamBuild}
use fm_orchestrator.Expansion.Streams.{
  max_id, ready_builds, get_last_build_in_all_streams, Expanded, default_stream, excluded,
  is_blacklist, expand_single_mse_streams,
}
use fm_orchestrator.Expansion.Removal.{
  IsUnique, is_excluded_by, take_streams-excluded, take_streams-wanted,
}

abbrev HasDistinctBuilds : List StreamBuild → Type 0
HasDistinctBuilds = HasDistinct (λ b. b.id)

HasDistinct-filter :
    (p : StreamBuild → Bool) (bs : List StreamBuild)
    → HasDistinctBuilds bs
    → HasDistinctBuilds (filter p bs)
HasDistinct-filter p [] h = tt
HasDistinct-filter p (b ∷ bs) h = elim (Bool-cases (p b)) [
  | inl e ↦ rw e ((All-filter (λ c. c.id ≢ b.id) p bs h.0, HasDistinct-filter p bs h.1))
  | inr e ↦ rw e (HasDistinct-filter p bs h.1)
]

-- Builds whose ids follow from their streams have other streams where their ids differ.
stream-differs :
    (id_of : String → ℕ) (b : StreamBuild) (bs : List StreamBuild)
    → b.id ≡ id_of b.stream
    → All (λ c. c.id ≢ b.id) bs
    → any (λ s. s == b.stream) (map (λ c. c.stream) (filter (λ c. c.id == id_of c.stream) bs))
      ≡ false
stream-differs id_of b [] e h = refl
stream-differs id_of b (c ∷ bs) e h = elim (Bool-cases (c.id == id_of c.stream)) [
  | inr k ↦ rw k (stream-differs id_of b bs e h.1)
  | inl k ↦ rw k (elim (Bool-cases (c.stream == b.stream)) [
    | inr l ↦ rw l (stream-differs id_of b bs e h.1)
    | inl l ↦
        let same : c.stream ≡ b.stream = (eq_iff c.stream b.stream).0 l in
        let own : c.id ≡ id_of c.stream = (nat_beq_iff c.id (id_of c.stream)).0 k in
        absurd (h.0 (own ∙ ap id_of same ∙ sym e))
  ])
]

streams-IsUnique :
    (id_of : String → ℕ) (bs : List StreamBuild)
    → HasDistinctBuilds bs
    → IsUnique (map (λ b. b.stream) (filter (λ b. b.id == id_of b.stream) bs))
streams-IsUnique id_of [] h = tt
streams-IsUnique id_of (b ∷ bs) h = elim (Bool-cases (b.id == id_of b.stream)) [
  | inr e ↦ rw e (streams-IsUnique id_of bs h.1)
  | inl e ↦
      let own = (nat_beq_iff b.id (id_of b.stream)).0 e in
      rw e ((stream-differs id_of b bs own h.0, streams-IsUnique id_of bs h.1))
]

-- get_last_build_in_all_streams gives one build of a stream.
pub last_build-IsUnique :
    (table : List StreamBuild) (name : String)
    → HasDistinctBuilds table
    → IsUnique (map (λ b. b.stream) (get_last_build_in_all_streams table name))
unfolding get_last_build_in_all_streams
last_build-IsUnique table name h =
    let builds = ready_builds name table in
    streams-IsUnique (λ s. max_id s builds) builds
      (HasDistinct-filter
        (λ b. (b.name == name) && (state_code b.state == state_code BuildState.ready)) table h)

same_branch : (b : Bool) (x : Expanded) → (if b then x else x) ≡ x
same_branch true x = refl
same_branch false x = refl

blacklist-is_nonempty :
    (streams : List String) → is_blacklist streams ≡ false → is_nonempty streams ≡ true
blacklist-is_nonempty [] h = cc
blacklist-is_nonempty (s ∷ ss) h = refl

-- The streams that are not excluded, and where all of them are, those of the ready builds less the
-- excluded ones.
abbrev pub offered : List StreamBuild → String → List String → List String
offered table name streams =
    if is_blacklist streams
    then filter (λ s. not (is_excluded_by streams s))
        (map (λ b. b.stream) (get_last_build_in_all_streams table name))
    else filter (λ s. not (is_some (excluded s))) streams

-- Where the module has no default stream and raise_if_stream_ambigous is not set,
-- expand_single_mse_streams gives the streams of the list that have no "-" prefix, in their
-- order; where every stream of the list has the prefix, and where the list is empty, it gives the
-- streams in which the module has a ready build, less those that the list excludes. The builds
-- have distinct ids.
pub expand-offered :
    (table : List StreamBuild) (name : String) (streams : List String)
    (default_streams : List (String × String))
    → HasDistinctBuilds table
    → default_stream name default_streams ≡ none
    → expand_single_mse_streams table name streams default_streams false
      ≡ Expanded.expanded (offered table name streams)
unfolding expand_single_mse_streams
expand-offered table name streams default_streams h d = elim (Bool-cases (is_blacklist streams)) [
  | inl e ↦
      let latest = map (λ b. b.stream) (get_last_build_in_all_streams table name) in
      rw (d, e, take_streams-excluded streams latest e (last_build-IsUnique table name h))
        (same_branch (ltb 1 (length (filter (λ s. not (is_excluded_by streams s)) latest))) _)
  | inr e ↦
      rw (d, e, blacklist-is_nonempty streams e, take_streams-wanted streams [])
        (same_branch (ltb 1 (length (filter (λ s. not (is_some (excluded s))) streams))) _)
]
