-- ===== src/Streams/Latest.antt =====
-- `get_last_builds_in_stream_version_lte` of module_build_service/common/models.py, with the two
-- filters that it adds.
use fm_orchestrator.Common.{
  ℕ, zero, suc, ◌*◌, ◌/◌, Bool, true, ◌&&◌, any, Option, none, some, String, List, [], ◌∷◌, filter,
  leb, if◌then◌else◌, string_eq, nat_eq, ◌==◌, ◌^^◌,
}
use fm_orchestrator.Models.{BuildState, state_code}

-- The columns of a module build that the query reads, and the names of its virtual streams.
pub record StreamBuild : Type 0 where
  pub id : ℕ
  pub name : String
  pub stream : String
  pub version : ℕ
  pub context : String
  pub state : BuildState
  pub stream_version : ℕ
  pub virtual_streams : List String

-- _add_stream_version_lte_filter; the number is given without a suffix.
abbrev pub is_in_stream_versions : Option ℕ → StreamBuild → Bool
is_in_stream_versions none b = true
is_in_stream_versions (some zero) b = true
is_in_stream_versions (some (suc v)) b =
    leb b.stream_version (suc v) && leb (suc v / 10000 * 10000) b.stream_version

-- _add_virtual_streams_filter
abbrev pub shares_virtual_stream : List String → StreamBuild → Bool
shares_virtual_stream [] b = true
shares_virtual_stream (s ∷ ss) b = any (λ v. any (λ t. t == v) (s ∷ ss)) b.virtual_streams

-- ORDER BY version DESC, which leaves the order of equal versions open.
unfoldable pub insert_desc : StreamBuild → List StreamBuild → List StreamBuild
insert_desc b [] = b ∷ []
insert_desc b (c ∷ cs) =
    let rest = insert_desc b cs in if leb c.version b.version then b ∷ c ∷ cs else c ∷ rest

unfoldable pub by_version_desc : List StreamBuild → List StreamBuild
unfolding insert_desc
by_version_desc [] = []
by_version_desc (b ∷ bs) = insert_desc b (by_version_desc bs)

abbrev pub ns : StreamBuild → String
ns b = b.name ^^ ":" ^^ b.stream

abbrev pub seen_version : String → List (String × ℕ) → Option ℕ
seen_version key [] = none
seen_version key ((k, v) ∷ seen) =
    let rest = seen_version key seen in if k == key then some v else rest

-- A build of a version that differs from the first one of its stream is left out.
abbrev pub keep_build :
    StreamBuild → Option ℕ → List StreamBuild → List StreamBuild → List StreamBuild
keep_build b none same_seen more_seen = b ∷ more_seen
keep_build b (some v) same_seen more_seen = if v == b.version then b ∷ same_seen else same_seen

-- The loop over the builds.
unfoldable pub latest_of : List (String × ℕ) → List StreamBuild → List StreamBuild
latest_of seen [] = []
latest_of seen (b ∷ bs) =
    keep_build b (seen_version (ns b) seen) (latest_of seen bs)
      (latest_of ((ns b, b.version) ∷ seen) bs)

abbrev pub is_in_states : List BuildState → StreamBuild → Bool
is_in_states [] b = state_code BuildState.ready == state_code b.state
is_in_states (s ∷ ss) b = any (λ t. state_code t == state_code b.state) (s ∷ ss)

-- The query.
abbrev pub is_candidate_build :
    String → Option ℕ → List String → List BuildState → StreamBuild → Bool
is_candidate_build name stream_version virtual_streams states b =
    (b.name == name)
    && is_in_states states b
    && is_in_stream_versions stream_version b
    && shares_virtual_stream virtual_streams b

unfoldable pub get_last_builds_in_stream_version_lte :
    List StreamBuild → String → Option ℕ → List String → List BuildState → List StreamBuild
unfolding by_version_desc latest_of
get_last_builds_in_stream_version_lte table name stream_version virtual_streams states =
    latest_of [] (
      by_version_desc
        (filter (is_candidate_build name stream_version virtual_streams states) table))
