-- ===== src/Expansion/Strict.antt =====
-- What `expand_single_mse_streams` of module_build_service/common/resolve.py gives where one stream
-- has to be chosen.
use fm_orchestrator.Common.{
  ◌≤◌, ◌≡◌, Bool, true, false, not, ◌||◌, Option, none, some, is_some, String, List, map, length,
  is_nonempty, ltb, arith, inl, inr, Bool-cases,
}
use fm_orchestrator.Streams.{StreamBuild}
use fm_orchestrator.Expansion.Streams.{
  get_last_build_in_all_streams, Expanded, default_stream, is_blacklist, take_streams,
  choose_stream, start_streams, finish_streams, expand_single_mse_streams,
}

-- An expansion that gives at most one stream, if any.
abbrev pub IsUnambiguous : Expanded → Type 0
IsUnambiguous Expanded.ambiguous = Unit
IsUnambiguous (Expanded.expanded streams) = length streams ≤ 1

choose_stream-IsUnambiguous :
    (default : Option String) (strict : Bool) (streams : List String)
    → (is_some default || strict ≡ true)
    → IsUnambiguous (choose_stream default strict streams)
choose_stream-IsUnambiguous (some s) strict streams h = omega arith
choose_stream-IsUnambiguous none true streams h = tt
choose_stream-IsUnambiguous none false streams h = cc

finish-IsUnambiguous :
    (default : Option String) (strict blacklist : Bool) (streams : List String) (start : Expanded)
    → (is_some default || strict ≡ true)
    → IsUnambiguous (finish_streams default strict blacklist streams start)
finish-IsUnambiguous default strict blacklist streams Expanded.ambiguous h = tt
finish-IsUnambiguous default strict blacklist streams (Expanded.expanded start) h =
    let found = take_streams blacklist streams start in
    elim (Bool-cases (ltb 1 (length found))) [
      | inl e ↦ rw e (choose_stream-IsUnambiguous default strict found h)
      | inr e ↦ rw e (ground arith)
    ]

-- Where the module has a default stream, or raise_if_stream_ambigous is set,
-- expand_single_mse_streams gives at most one stream or raises StreamAmbigous, whatever streams
-- are asked for and whatever builds there are.
pub expand-IsUnambiguous :
    (table : List StreamBuild) (name : String) (streams : List String)
    (default_streams : List (String × String)) (strict : Bool)
    → (is_some (default_stream name default_streams) || strict ≡ true)
    → IsUnambiguous (expand_single_mse_streams table name streams default_streams strict)
unfolding expand_single_mse_streams
expand-IsUnambiguous table name streams default_streams strict h =
    let default = default_stream name default_streams in
    let blacklist = is_blacklist streams in
    finish-IsUnambiguous default strict blacklist streams
      (start_streams default strict (blacklist || not (is_nonempty streams))
        (map (λ b. b.stream) (get_last_build_in_all_streams table name)))
      h
