-- ===== src/Messages/RoundTrip.antt =====
-- The messages that carry an event of a service, read back by the parser of
-- module_build_service/scheduler/parser.py.
use fm_orchestrator.Common.{
  ℕ, ◌≡◌, ◌≢◌, refl, ap, ◌∙◌, Bool, true, none, some, String, [], ◌∷◌, is_nonempty_text, string_eq,
  ◌^^◌,
}
use fm_orchestrator.Messages.{
  Value, Body, BusEvent, Parsed, Packet, Envelope, Groups, search, parse, with_topic, with_groups,
  with_content, known_fedmsg_services, get, is_primary,
}
use fm_orchestrator.Messages.Search.{has_no_category, search-prefix}

-- What happened, as a service that publishes it knows it.
pub data Notice : Type 0 where
  build_changed : (task_id new : ℕ) (name version release : String) → Notice
  repo_done : (tag : String) → Notice
  build_tagged : (tag name version release : String) → Notice
  module_changed : (id state : ℕ) → Notice
  decision_updated : (context subject : String) (satisfied : Bool) → Notice

-- The topic behind the prefix of the bus.
abbrev pub topic_of : Notice → String
topic_of (Notice.build_changed _ _ _ _ _) = "buildsys.build.state.change"
topic_of (Notice.repo_done _) = "buildsys.repo.done"
topic_of (Notice.build_tagged _ _ _ _) = "buildsys.tag"
topic_of (Notice.module_changed _ _) = "mbs.module.state.change"
topic_of (Notice.decision_updated _ _ _) = "greenwave.decision.update"

-- A build has a name, a version and a release.
abbrev pub HasParts : (name version release : String) → Type 0
HasParts name version release =
    (is_nonempty_text name ≡ true)
    × (is_nonempty_text version ≡ true)
    × (is_nonempty_text release ≡ true)

-- The content of a message carries what happened: among its entries, in any order, are the ones
-- that belong to it. A message of Koji comes from the primary instance.
abbrev pub Carries : Notice → Body → Type 0
Carries (Notice.build_changed task_id new name version release) body =
    (is_primary body ≡ true)
    × (get "task_id" body ≡ Value.number task_id)
    × (get "new" body ≡ Value.number new)
    × (get "name" body ≡ Value.text name)
    × (get "version" body ≡ Value.text version)
    × (get "release" body ≡ Value.text release)
Carries (Notice.repo_done tag) body = (is_primary body ≡ true) × (get "tag" body ≡ Value.text tag)
Carries (Notice.build_tagged tag name version release) body =
    HasParts name version release
    × (is_primary body ≡ true)
    × (get "tag" body ≡ Value.text tag)
    × (get "name" body ≡ Value.text name)
    × (get "version" body ≡ Value.text version)
    × (get "release" body ≡ Value.text release)
Carries (Notice.module_changed id state) body =
    (get "id" body ≡ Value.number id) × (get "state" body ≡ Value.number state)
Carries (Notice.decision_updated context subject satisfied) body =
    (get "decision_context" body ≡ Value.text context)
    × (get "policies_satisfied" body ≡ Value.flag satisfied)
    × (get "subject_identifier" body ≡ Value.text subject)

abbrev pub envelope_of : String → String → Notice → Body → Envelope
envelope_of prefix msg_id n body = record {
  topic = some (prefix ^^ topic_of n);
  msg_id = some msg_id;
  msg = some body;
}

-- The mapping that stands for what happened.
abbrev pub event_of : Notice → BusEvent
event_of (Notice.build_changed task_id new name version release) =
    BusEvent.koji_build_change (Value.number task_id) (Value.number new) (Value.text name)
      (Value.text version) (Value.text release)
event_of (Notice.repo_done tag) = BusEvent.koji_repo_change (Value.text tag)
event_of (Notice.build_tagged tag name version release) =
    BusEvent.koji_tag_change (Value.text tag) (some (name ^^ "-" ^^ version ^^ "-" ^^ release))
event_of (Notice.module_changed id state) =
    BusEvent.mbs_module_state_change (Value.number id) (Value.number state)
event_of (Notice.decision_updated context subject satisfied) =
    BusEvent.greenwave_decision_update (Value.text context) (Value.flag satisfied)
      (Value.text subject)

abbrev groups_of : Notice → Groups
groups_of (Notice.build_changed _ _ _ _ _) = record {
  category = "buildsys";
  object = some "build";
  subobject = some "state";
  event = "change";
}
groups_of (Notice.repo_done _) = record {
  category = "buildsys";
  object = some "repo";
  subobject = none;
  event = "done";
}
groups_of (Notice.build_tagged _ _ _ _) = record {
  category = "buildsys";
  object = none;
  subobject = none;
  event = "tag";
}
groups_of (Notice.module_changed _ _) = record {
  category = "mbs";
  object = some "module";
  subobject = some "state";
  event = "change";
}
groups_of (Notice.decision_updated _ _ _) = record {
  category = "greenwave";
  object = some "decision";
  subobject = none;
  event = "update";
}

topic_groups : (n : Notice) → search known_fedmsg_services (topic_of n) ≡ some (groups_of n)
unfolding search
topic_groups (Notice.build_changed _ _ _ _ _) = refl
topic_groups (Notice.repo_done _) = refl
topic_groups (Notice.build_tagged _ _ _ _) = refl
topic_groups (Notice.module_changed _ _) = refl
topic_groups (Notice.decision_updated _ _ _) = refl

no_text : (t : String) → Value.null ≢ Value.text t
no_text t h = cc

no_number : (k : ℕ) → Value.null ≢ Value.number k
no_number k h = cc

-- Content that carries something is not empty.
empty-Carries : (n : Notice) → ¬ Carries n []
unfolding get
empty-Carries (Notice.build_changed task_id _ _ _ _) h = no_number task_id h.1
empty-Carries (Notice.repo_done tag) h = no_text tag h.1
empty-Carries (Notice.build_tagged tag _ _ _) h = no_text tag h.2
empty-Carries (Notice.module_changed id _) h = no_number id h.0
empty-Carries (Notice.decision_updated context _ _) h = no_text context h.0

read_content :
    (msg_id : String) (n : Notice) (body : Body)
    → Carries n body
    → with_content (some msg_id) (groups_of n) body ≡ Parsed.event (some msg_id) (event_of n)
read_content msg_id (Notice.build_changed _ _ _ _ _) body (p, task, new, name, version, release) =
    rw (p, task, new, name, version, release) refl
read_content msg_id (Notice.repo_done _) body (p, tag) = rw (p, tag) refl
read_content msg_id (Notice.build_tagged _ _ _ _) body ((n, v, r), p, tag, name, version, release) =
    rw (p, tag, name, version, release) (rw (n, v, r) refl)
read_content msg_id (Notice.module_changed _ _) body (id, state) = rw (id, state) refl
read_content msg_id (Notice.decision_updated _ _ _) body (context, satisfied, subject) =
    rw (context, satisfied, subject) refl

read_body :
    (prefix msg_id : String) (n : Notice) (body : Body)
    → Carries n body
    → with_groups (envelope_of prefix msg_id n body) (some (groups_of n)) (some body)
      ≡ Parsed.event (some msg_id) (event_of n)
read_body prefix msg_id n [] h = absurd (empty-Carries n h)
read_body prefix msg_id n (entry ∷ body) h = read_content msg_id n (entry ∷ body) h

with_topic-Carries :
    (prefix msg_id : String) (n : Notice) (body : Body)
    → has_no_category known_fedmsg_services prefix (topic_of n) ≡ true
    → Carries n body
    → with_topic known_fedmsg_services
        (envelope_of prefix msg_id n body)
        (some (prefix ^^ topic_of n))
      ≡ Parsed.event (some msg_id) (event_of n)
with_topic-Carries prefix msg_id n body clear h =
    ap (λ g. with_groups (envelope_of prefix msg_id n body) g (some body))
      (search-prefix known_fedmsg_services prefix (topic_of n) clear ∙ topic_groups n)
    ∙ read_body prefix msg_id n body h

-- Where the content of a message carries a build, a tagged build, a regenerated repository, a
-- module build or a decision of Greenwave, whatever its other entries and their order are, and
-- its topic is the one for it, the parser gives back the mapping with the id of the message and
-- these fields. It does so for a message with the content under "body" and for one without, and
-- under any prefix of the topic in which no category starts.
pub parse-envelope_of :
    (prefix msg_id : String) (n : Notice) (body : Body)
    → has_no_category known_fedmsg_services prefix (topic_of n) ≡ true
    → Carries n body
    → (parse known_fedmsg_services (Packet.plain (envelope_of prefix msg_id n body))
        ≡ Parsed.event (some msg_id) (event_of n))
      × (parse known_fedmsg_services (Packet.wrapped (envelope_of prefix msg_id n body))
          ≡ Parsed.event (some msg_id) (event_of n))
unfolding parse
parse-envelope_of prefix msg_id n body clear h =
    let read = with_topic-Carries prefix msg_id n body clear h in (read, read)
