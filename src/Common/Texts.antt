-- ===== src/Common/Texts.antt =====
-- Native texts: suffixes, truth, and joins.
use Prim.Native.Nat.{ℕ}
use Prim.Native.Char.{code}
use Prim.Native.String as Str
use Prim.Native.String.{String}
use mathlib.Core.Bool.{Bool, true, false, not, ◌&&◌}
use mathlib.Core.Option as Opt
use mathlib.Core.Option.{Option, none, some}
use mathlib.Core.List.{List, [], ◌∷◌}
use fm_orchestrator.Common.Tests.{if◌then◌else◌, string_eq, nat_eq, ◌==◌}

infixr 66 ◌^^◌
-- Concatenation of texts.
abbrev pub ◌^^◌ : String → String → String
s ^^ t = Str.◌++◌ s t

-- `s[:-len(suffix)]` where `s.endswith(suffix)`, and nothing elsewhere.
unfoldable pub strip_suffix : String → String → Option String
strip_suffix suffix Str.[] = if suffix == "" then some "" else none
strip_suffix suffix (Str.◌∷◌ c s) =
    if suffix == Str.◌∷◌ c s then some "" else Opt.map (λ r. Str.◌∷◌ c r) (strip_suffix suffix s)

-- The truth of a text, and of a text or None.
abbrev pub is_nonempty_text : String → Bool
is_nonempty_text s = not (s == "")

abbrev pub is_truthy : Option String → Bool
is_truthy none = false
is_truthy (some s) = is_nonempty_text s

-- ", ".join(texts)
unfoldable pub join : List String → String
join [] = ""
join (s ∷ []) = s
join (s ∷ t ∷ r) = s ^^ ", " ^^ join (t ∷ r)

-- text.startswith(prefix)
unfoldable pub starts_with : String → String → Bool
starts_with Str.[] s = true
starts_with (Str.◌∷◌ c p) Str.[] = false
starts_with (Str.◌∷◌ c p) (Str.◌∷◌ d s) = (code c == code d) && starts_with p s

-- The code points of a text.
unfoldable pub codes : String → List ℕ
codes Str.[] = []
codes (Str.◌∷◌ c s) = code c ∷ codes s
