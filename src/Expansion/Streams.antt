-- ===== src/Expansion/Streams.antt =====
-- `get_last_build_in_all_streams` of module_build_service/common/models.py and
-- `expand_single_mse_streams` of module_build_service/common/resolve.py.
use Prim.Native.Char.{code}
use Prim.Native.String as Str
use fm_orchestrator.Common.{
  ℕ, Bool, not, ◌&&◌, ◌||◌, any, all, Option, none, some, is_some, String, List, [], ◌∷◌, ◌++◌, map,
  filter, length, is_nonempty, fold_each, max, ltb, nat_eq, string_eq, ◌==◌, if◌then◌else◌,
}
use fm_orchestrator.Models.{BuildState, state_code}
use fm_orchestrator.Streams.{StreamBuild}

-- MAX(id) over the builds of a stream.
abbrev pub max_id : String → List StreamBuild → ℕ
max_id stream [] = 0
max_id stream (b ∷ bs) =
    let rest = max_id stream bs in if b.stream == stream then max b.id rest else rest

abbrev pub ready_builds : String → List StreamBuild → List StreamBuild
ready_builds name =
    filter (λ b. (b.name == name) && (state_code b.state == state_code BuildState.ready))

-- The join finds, by the primary key, the build of each stream that has the greatest id.
unfoldable pub get_last_build_in_all_streams : List StreamBuild → String → List StreamBuild
get_last_build_in_all_streams table name =
    let builds = ready_builds name table in filter (λ b. b.id == max_id b.stream builds) builds

-- The streams, or a StreamAmbigous exception.
pub data Expanded : Type 0 where
  expanded : (streams : List String) → Expanded
  ambiguous : Expanded

-- default_streams, where a missing one is an empty dictionary.
abbrev pub default_stream : String → List (String × String) → Option String
default_stream name [] = none
default_stream name ((n, s) ∷ rest) =
    let found = default_stream name rest in if n == name then some s else found

-- stream[1:] of a stream that starts with "-".
abbrev pub excluded : String → Option String
excluded Str.[] = none
excluded (Str.◌∷◌ c s) = if code c == 45 then some s else none

-- streams.remove(stream)
abbrev pub remove : String → List String → List String
remove stream [] = []
remove stream (s ∷ ss) = let rest = remove stream ss in if s == stream then ss else s ∷ rest

abbrev pub is_blacklist : List String → Bool
is_blacklist = all (λ s. is_some (excluded s))

-- A stream of the list, by what `excluded` gives for it.
abbrev pub take_stream : Bool → String → Option String → List String → List String
take_stream blacklist stream none streams = streams ++ stream ∷ []
take_stream blacklist stream (some s) streams =
    if blacklist && any (λ t. t == s) streams then remove s streams else streams

-- The loop over the streams.
unfoldable pub take_streams : Bool → List String → List String → List String
take_streams blacklist =
    fold_each (λ stream streams. take_stream blacklist stream (excluded stream) streams)

-- One of several streams: the default one, an exception, or all of them.
abbrev pub choose_stream : Option String → Bool → List String → Expanded
choose_stream (some default) strict streams = Expanded.expanded (default ∷ [])
choose_stream none strict streams = if strict then Expanded.ambiguous else Expanded.expanded streams

-- The streams that the loop starts with.
abbrev pub start_streams : Option String → Bool → Bool → List String → Expanded
start_streams default strict from_all latest =
    if from_all then choose_stream default strict latest else Expanded.expanded []

abbrev pub finish_streams : Option String → Bool → Bool → List String → Expanded → Expanded
finish_streams default strict blacklist streams Expanded.ambiguous = Expanded.ambiguous
finish_streams default strict blacklist streams (Expanded.expanded start) =
    let found = take_streams blacklist streams start in
    if ltb 1 (length found) then choose_stream default strict found else Expanded.expanded found

unfoldable pub expand_single_mse_streams :
    List StreamBuild → String → List String → List (String × String) → Bool → Expanded
expand_single_mse_streams table name streams default_streams strict =
    let default = default_stream name default_streams in
    let blacklist = is_blacklist streams in
    let latest = map (λ b. b.stream) (get_last_build_in_all_streams table name) in
    finish_streams default strict blacklist streams
      (start_streams default strict (blacklist || not (is_nonempty streams)) latest)
