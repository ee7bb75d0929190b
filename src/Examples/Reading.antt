-- ===== src/Examples/Reading.antt =====
-- The theorems on the messages of the bus, the versions of streams, the client for Greenwave and
-- the event scheduler, applied to small values.
use fm_orchestrator.Common.{
  if◌then◌else◌, ◌==◌, string_eq, ℕ, ◌≡◌, refl, Bool, true, Option, some, String, List, [], ◌∷◌,
  ◌++◌, count, ◌&&◌, arith,
}
use fm_orchestrator.Exec.{Exec, ok, raise, value_error, ◌>>◌}
use fm_orchestrator.Models.{BuildState, World, Event, add_event}
use fm_orchestrator.Greenwave.Client.{Reply, Policy, Client, get_product_versions, check_gating}
use fm_orchestrator.Greenwave.Verdict.{Answers, check_gating-Answers}
use fm_orchestrator.Events.{mbs_event_handler}
use fm_orchestrator.Events.Drain.{handed_over, mbs_event_handler-handed_over}
use fm_orchestrator.Examples.Data.{store}
use fm_orchestrator.Messages.{
  Value, Body, Packet, Parsed, parse, known_fedmsg_services, one_of, get, is_primary,
}
use fm_orchestrator.Messages.RoundTrip.{Notice, Carries, envelope_of, event_of, parse-envelope_of}
use fm_orchestrator.Messages.Search.{has_no_category}
use fm_orchestrator.Streams.{
  get_stream_version, first_suffix, get_prefixed_version, StreamBuild,
  get_last_builds_in_stream_version_lte,
}
use fm_orchestrator.Streams.Triples.{printed_triple, get_stream_version-printed_triple}
use fm_orchestrator.Streams.Bounds.{IsPrefixed, get_prefixed_version-IsPrefixed}
use fm_orchestrator.Streams.Ordered.{IsDescending}
use fm_orchestrator.Streams.Greatest.{
  is_greatest, candidates, last_builds, last_builds-IsDescending,
}

abbrev notice : Notice
notice = Notice.build_tagged "module-testmodule" "bash" "5.0" "1.el8"

-- The entries in another order, with some that the parser does not read.
abbrev tag_body : Body
tag_body =
    ("build_id", Value.number 442562)
    ∷ ("release", Value.text "1.el8")
    ∷ ("tag", Value.text "module-testmodule")
    ∷ ("owner", Value.text "builder")
    ∷ ("history", Value.nested true)
    ∷ ("version", Value.text "5.0")
    ∷ ("name", Value.text "bash")
    ∷ ("instance", Value.text "primary")
    ∷ []

tag_body-Carries : Carries notice tag_body
unfolding get is_primary
tag_body-Carries = ((refl, refl, refl), refl, refl, refl, refl, refl)

tag_topic : has_no_category known_fedmsg_services "org.fedoraproject.prod." "buildsys.tag" ≡ true
unfolding one_of
tag_topic = refl

parse-envelope_of_example :
    (parse known_fedmsg_services
        (Packet.plain (envelope_of "org.fedoraproject.prod." "msg" notice tag_body))
      ≡ Parsed.event (some "msg") (event_of notice))
    × (parse known_fedmsg_services
          (Packet.wrapped (envelope_of "org.fedoraproject.prod." "msg" notice tag_body))
        ≡ Parsed.event (some "msg") (event_of notice))
parse-envelope_of_example =
    parse-envelope_of "org.fedoraproject.prod." "msg" notice tag_body tag_topic tag_body-Carries

-- One suffix, for every stream.
abbrev suffixes : List ((List ℕ → Bool) × ℕ)
suffixes = ((λ stream. true), 2) ∷ []

-- The stream el8.10.2
get_stream_version-printed_triple_example :
    get_stream_version suffixes ((101 ∷ 108 ∷ []) ++ printed_triple 8 10 2) true
    ≡ some (81002, first_suffix suffixes suffixes ((101 ∷ 108 ∷ []) ++ printed_triple 8 10 2))
get_stream_version-printed_triple_example =
    get_stream_version-printed_triple suffixes (101 ∷ 108 ∷ []) 8 10 2 true (refl, (refl, tt))
      (omega arith) (omega arith) (omega arith)

abbrev requires : Option (List (String × String))
requires = some (("platform", "el8.1.0") ∷ [])

get_prefixed_version-IsPrefixed_example :
    IsPrefixed suffixes
      ("platform" ∷ [])
      requires
      20190101
      (get_prefixed_version suffixes ("platform" ∷ []) requires 20190101)
get_prefixed_version-IsPrefixed_example =
    get_prefixed_version-IsPrefixed suffixes ("platform" ∷ []) requires 20190101

abbrev platform : ℕ → String → ℕ → ℕ → StreamBuild
platform id stream version stream_version = record {
  id = id;
  name = "platform";
  stream = stream;
  version = version;
  context = "00000000";
  state = BuildState.ready;
  stream_version = stream_version;
  virtual_streams = "el8" ∷ [];
}

abbrev platforms : List StreamBuild
platforms =
    platform 1 "el8.1.0" 1 80100
    ∷ platform 2 "el8.1.0" 2 80100
    ∷ platform 3 "el8.2.0" 1 80200
    ∷ platform 4 "el8.3.0" 1 80300
    ∷ []

last_builds-IsDescending_example :
    IsDescending (last_builds platforms "platform" (some 80200) ("el8" ∷ []) [])
    × ((p : StreamBuild → Bool)
        → count p (last_builds platforms "platform" (some 80200) ("el8" ∷ []) [])
          ≡ count
              (λ b.
                p b && is_greatest (candidates platforms "platform" (some 80200) ("el8" ∷ []) []) b)
              (candidates platforms "platform" (some 80200) ("el8" ∷ []) []))
last_builds-IsDescending_example =
    last_builds-IsDescending platforms "platform" (some 80200) ("el8" ∷ []) []

-- A stream without a digit has the version 0, not none.
no_digits : get_stream_version suffixes (109 ∷ 97 ∷ []) true ≡ some (0, some 2)
unfolding get_stream_version
no_digits = refl

last_builds_run :
    last_builds platforms "platform" (some 80200) ("el8" ∷ []) []
    ≡ platform 2 "el8.1.0" 2 80100 ∷ platform 3 "el8.2.0" 1 80200 ∷ []
unfolding get_last_builds_in_stream_version_lte
last_builds_run = refl

abbrev policy : Policy
policy = record {
  decision_context = some "osci";
  subject_type = some "redhat-module";
  product_versions = some ("rhel-8" ∷ "rhel-9" ∷ []);
}

-- The service fails for one version, and the other is satisfied.
abbrev client : Client
client = record {
  decision_context = "osci";
  subject_type = "redhat-module";
  policies_reply = Reply.answered 200 (some (record { policies = some (policy ∷ []) }));
  decision_reply = λ nvr version.
      if version == "rhel-8"
      then Reply.timed_out
      else Reply.answered 200 (some (record { policies_satisfied = some true }));
}

check_gating-Answers_example :
    Answers client "testmodule-master-1"
      (get_product_versions client)
      (check_gating client "testmodule-master-1")
check_gating-Answers_example = check_gating-Answers client "testmodule-master-1"

gating_run : check_gating client "testmodule-master-1" ≡ ok (true, true)
unfolding check_gating
gating_run = refl

-- A handler that schedules an event and then raises.
abbrev schedules : Exec World Unit
schedules = add_event (Event.repos_done "msg" "module-testmodule-build") >> raise value_error

mbs_event_handler-handed_over_example :
    mbs_event_handler schedules store
    ≡ ((schedules store).0, handed_over (schedules store).1 (schedules store).1.events)
mbs_event_handler-handed_over_example = mbs_event_handler-handed_over schedules store
