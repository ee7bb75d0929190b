-- ===== src/Messages/Parser.antt =====
-- `FedmsgMessageParser.parse` of module_build_service/scheduler/parser.py, and the publishing of
-- messages in module_build_service/common/messaging.py.
use fm_orchestrator.Common.{
  ℕ, Bool, true, false, not, ◌&&◌, Option, none, some, String, List, [], ◌∷◌, is_some,
  is_nonempty_text, if◌then◌else◌, string_eq, nat_eq, option_eq, ◌==◌, ◌^^◌,
}
use fm_orchestrator.Messages.Topic.{Groups, search}

-- A value of a message, as far as the code looks into it.
pub data Value : Type 0 where
  null : Value
  flag : Bool → Value
  number : ℕ → Value
  text : String → Value
  -- A list or a mapping, with its truth.
  nested : Bool → Value

abbrev pub Body : Type 0
Body = List (String × Value)

-- body.get(key), which is None for a missing key.
unfoldable pub get : String → Body → Value
get key [] = Value.null
get key ((k, v) ∷ body) = let rest = get key body in if k == key then v else rest

-- The mapping for an event, which has the id of the message too.
pub data BusEvent : Type 0 where
  koji_build_change : (task_id new name version release : Value) → BusEvent
  koji_repo_change : (tag_name : Value) → BusEvent
  koji_tag_change : (tag_name : Value) (build_nvr : Option String) → BusEvent
  mbs_module_state_change : (module_build_id module_build_state : Value) → BusEvent
  greenwave_decision_update :
      (decision_context policies_satisfied subject_identifier : Value) → BusEvent

-- What `parse` does: it returns a mapping or None, or raises IgnoreMessage, KeyError or TypeError.
pub data Parsed : Type 0 where
  event : (msg_id : Option String) → BusEvent → Parsed
  nothing ignored missing_topic no_text : Parsed

pub record Envelope : Type 0 where
  pub topic : Option String
  pub msg_id : Option String
  pub msg : Option Body

-- A message, with its content under "body" or not.
pub data Packet : Type 0 where
  wrapped plain : Envelope → Packet

abbrev pub is_truthy_value : Value → Bool
is_truthy_value Value.null = false
is_truthy_value (Value.flag b) = b
is_truthy_value (Value.number n) = not (n == 0)
is_truthy_value (Value.text s) = is_nonempty_text s
is_truthy_value (Value.nested b) = b

abbrev pub is_null : Value → Bool
is_null Value.null = true
is_null _ = false

abbrev pub is_text : String → Value → Bool
is_text s (Value.text t) = t == s
is_text s _ = false

-- body.get("instance", "primary") == "primary"
unfoldable pub is_primary : Body → Bool
is_primary [] = true
is_primary ((k, v) ∷ body) =
    let rest = is_primary body in if k == "instance" then is_text "primary" v else rest

-- "-".join((name, version, release)) where all three are true, and nothing where `join` raises.
abbrev pub joined : Value → Value → Value → Option String
joined (Value.text name) (Value.text version) (Value.text release) =
    some (name ^^ "-" ^^ version ^^ "-" ^^ release)
joined _ _ _ = none

abbrev pub tag_event : Option String → Value → Option String → Parsed
tag_event msg_id tag none = Parsed.no_text
tag_event msg_id tag (some nvr) = Parsed.event msg_id (BusEvent.koji_tag_change tag (some nvr))

abbrev pub tag_change : Option String → Body → Parsed
tag_change msg_id msg =
    if is_truthy_value (get "name" msg)
      && is_truthy_value (get "version" msg)
      && is_truthy_value (get "release" msg)
    then tag_event msg_id (get "tag" msg)
        (joined (get "name" msg) (get "version" msg) (get "release" msg))
    else Parsed.event msg_id (BusEvent.koji_tag_change (get "tag" msg) none)

abbrev pub build_change : Option String → Body → Parsed
build_change msg_id msg =
    if is_null (get "task_id" msg)
    then Parsed.ignored
    else Parsed.event msg_id (
        BusEvent.koji_build_change (get "task_id" msg) (get "new" msg) (get "name" msg)
          (get "version" msg) (get "release" msg))

-- Whether a group matched and is the word.
abbrev pub is_group : Option String → String → Bool
is_group g word = g == some word

-- The tests on the groups for the other categories.
abbrev pub other_category : Option String → Groups → Body → Parsed
other_category msg_id g msg =
    if (g.category == "mbs")
      && is_group g.object "module"
      && is_group g.subobject "state"
      && (g.event == "change")
    then Parsed.event msg_id (BusEvent.mbs_module_state_change (get "id" msg) (get "state" msg))
    else if (g.category == "greenwave")
        && is_group g.object "decision"
        && not (is_some g.subobject)
        && (g.event == "update")
    then Parsed.event msg_id (
        BusEvent.greenwave_decision_update (get "decision_context" msg)
          (get "policies_satisfied" msg) (get "subject_identifier" msg))
    else Parsed.nothing

abbrev pub buildsys : Option String → Groups → Body → Parsed
buildsys msg_id g msg =
    if not (is_primary msg)
    then Parsed.ignored
    else if is_group g.object "build" && is_group g.subobject "state" && (g.event == "change")
    then build_change msg_id msg
    else if is_group g.object "repo" && not (is_some g.subobject) && (g.event == "done")
    then Parsed.event msg_id (BusEvent.koji_repo_change (get "tag" msg))
    else if g.event == "tag"
    then tag_change msg_id msg
    else other_category msg_id g msg

-- The part under `if regex_results`, with the message that is not empty.
abbrev pub with_content : Option String → Groups → Body → Parsed
with_content msg_id g msg =
    if g.category == "buildsys" then buildsys msg_id g msg else other_category msg_id g msg

abbrev pub with_groups : Envelope → Option Groups → Option Body → Parsed
with_groups e none msg = Parsed.nothing
with_groups e (some g) none = Parsed.ignored
with_groups e (some g) (some []) = Parsed.ignored
with_groups e (some g) (some (entry ∷ msg)) = with_content e.msg_id g (entry ∷ msg)

abbrev pub with_topic : List String → Envelope → Option String → Parsed
with_topic categories e none = Parsed.missing_topic
with_topic categories e (some topic) = with_groups e (search categories topic) e.msg

abbrev pub content : Packet → Envelope
content (Packet.wrapped e) = e
content (Packet.plain e) = e

-- FedmsgMessageParser.parse; `categories` are its topic_categories.
unfoldable pub parse : List String → Packet → Parsed
unfolding search is_primary get
parse categories p = with_topic categories (content p) (content p).topic

abbrev pub known_fedmsg_services : List String
known_fedmsg_services = "buildsys" ∷ "mbs" ∷ "greenwave" ∷ []

-- The message that _in_memory_publish makes, and how it reads it, with the number as text.
unfoldable pub in_memory_message : (topic : String) → Body → (service msg_id : String) → Parsed
unfolding parse
in_memory_message topic msg service msg_id = parse known_fedmsg_services (
    Packet.plain
      (record { topic = some (service ^^ "." ^^ topic); msg_id = some msg_id; msg = some msg }))

-- notify_on_module_state_change
unfoldable pub notify_on_module_state_change : Body → (msg_id : String) → Parsed
unfolding in_memory_message
notify_on_module_state_change msg msg_id = in_memory_message "module.state.change" msg "mbs" msg_id
