-- ===== src/Messages/Search.antt =====
-- The search for a topic behind a prefix that has no category in it.
use Prim.Native.String as Str
use Prim.Native.String.append
use fm_orchestrator.Common.{
  ◌≡◌, refl, ap, ◌∙◌, Bool, true, false, not, ◌&&◌, String, List, [], ◌∷◌, is_nonempty, arith, ◌^^◌,
  concat_map,
}
use fm_orchestrator.Messages.Topic.{one_of, category_words, matches, or_later, search}

-- No category starts at a place of the prefix, followed by the topic.
abbrev pub has_no_category : List String → String → String → Bool
has_no_category categories Str.[] topic = true
has_no_category categories (Str.◌∷◌ c p) topic =
    not (is_nonempty (one_of (category_words categories) (Str.◌∷◌ c (p ^^ topic))))
    && has_no_category categories p topic

empty_list : {A : Type 0} (l : List A) → is_nonempty l ≡ false → l ≡ []
empty_list [] h = refl
empty_list (x ∷ l) h = absurd cc

no_match :
    (categories : List String) (s : String)
    → is_nonempty (one_of (category_words categories) s) ≡ false
    → matches categories s ≡ []
unfolding matches
no_match categories s h = ap (concat_map _) (empty_list (one_of (category_words categories) s) h)

pub search-prefix :
    (categories : List String) (prefix topic : String)
    → has_no_category categories prefix topic ≡ true
    → search categories (prefix ^^ topic) ≡ search categories topic
unfolding search
search-prefix categories Str.[] topic h = ap (search categories) (append.nil topic)
search-prefix categories (Str.◌∷◌ c p) topic h =
    ap (search categories) (append.cons c p topic)
    ∙ ap (λ l. or_later l (search categories (p ^^ topic)))
        (no_match categories (Str.◌∷◌ c (p ^^ topic)) (ground arith))
    ∙ search-prefix categories p topic (ground arith)
