-- ===== src/Messages/Topic.antt =====
-- The regular expression for topics in `FedmsgMessageParser.parse` of
-- module_build_service/scheduler/parser.py, with Python's search: the first place of the topic at
-- which it matches, and there the first match in the order in which the alternatives are tried.
use Prim.Native.Char.{code}
use Prim.Native.String as Str
use fm_orchestrator.Common.{
  Bool, ◌||◌, Option, none, some, String, List, [], ◌∷◌, ◌++◌, map, concat_map, if◌then◌else◌,
  string_eq, nat_eq, ◌==◌,
}

-- The named groups of a match.
pub record Groups : Type 0 where
  pub category : String
  pub object : Option String
  pub subobject : Option String
  pub event : String

-- The rest of a text behind a word, where the text starts with it.
unfoldable pub behind : String → String → Option String
behind Str.[] s = some s
behind (Str.◌∷◌ c w) Str.[] = none
behind (Str.◌∷◌ c w) (Str.◌∷◌ d s) = if code c == code d then behind w s else none

abbrev pub pair_with : String → Option String → List (String × String)
pair_with word none = []
pair_with word (some rest) = (word, rest) ∷ []

-- (a|b|...), every way to match it, with the rest of the text.
unfoldable pub one_of : List String → String → List (String × String)
unfolding behind
one_of words s = concat_map (λ word. pair_with word (behind word s)) words

-- (?:\.)(a|b|...)
unfoldable pub dotted : List String → String → List (String × String)
unfolding one_of
dotted words Str.[] = []
dotted words (Str.◌∷◌ c s) = if Str.◌∷◌ c "" == "." then one_of words s else []

-- (?:(?:\.)(a|b|...))?, which first tries to match something.
unfoldable pub optional : List String → String → List (Option String × String)
unfolding dotted
optional words s = map (λ (word, rest). (some word, rest)) (dotted words s) ++ (none, s) ∷ []

-- $, which also matches before a newline at the end.
abbrev pub is_end : String → Bool
is_end s = (s == "") || (s == "\n")

abbrev pub objects : List String
objects = "build" ∷ "repo" ∷ "module" ∷ "decision" ∷ []

abbrev pub subobjects : List String
subobjects = "state" ∷ "build" ∷ []

abbrev pub event_words : List String
event_words = "change" ∷ "done" ∷ "end" ∷ "tag" ∷ "update" ∷ []

-- The alternatives for the category; of no word, the expression matches the empty text.
abbrev pub category_words : List String → List String
category_words [] = "" ∷ []
category_words (c ∷ cs) = c ∷ cs

abbrev pub ends : String → Option String → Option String → String × String → List Groups
ends category object subobject (event, rest) =
    if is_end rest
    then record { category = category; object = object; subobject = subobject; event = event } ∷ []
    else []

-- Every match at the start of a text, in order.
unfoldable pub matches : List String → String → List Groups
unfolding one_of optional dotted
matches categories s =
    concat_map
      (λ (category, r).
        concat_map
          (λ (object, t).
            concat_map
              (λ (subobject, u). concat_map (ends category object subobject) (dotted event_words u))
              (optional subobjects t))
          (optional objects r))
      (one_of (category_words categories) s)

abbrev pub or_later : List Groups → Option Groups → Option Groups
or_later [] later = later
or_later (g ∷ gs) later = some g

-- re.search
unfoldable pub search : List String → String → Option Groups
unfolding matches
search categories Str.[] = or_later (matches categories "") none
search categories (Str.◌∷◌ c s) = or_later (matches categories (Str.◌∷◌ c s)) (search categories s)
