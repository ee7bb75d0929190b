-- ===== src/Submission/Overrides.antt =====
-- `get_module_srpm_overrides` of module_build_service/scheduler/submit.py, over the decoded list of
-- sources.
use fm_orchestrator.Common.{
  Bool, ◌&&◌, Option, none, some, String, List, [], ◌∷◌, is_some, if◌then◌else◌, string_eq, ◌==◌,
  strip_suffix, starts_with,
}
use fm_orchestrator.Exec.{Result, ok, raised, value_error, external}

-- What the function asks of the file system: whether a path exists, the last part of a path, and
-- the name in the header of an RPM, if it can be read.
pub record Files : Type 0 where
  pub exists : String → Bool
  pub basename : String → String
  pub header_name : String → Option String

abbrev pub Overrides : Type 0
Overrides = List (String × String)

abbrev pub find_override : String → Overrides → Option String
find_override name [] = none
find_override name ((n, source) ∷ rest) =
    let later = find_override name rest in if n == name then some source else later

module _ (files : Files) where
  abbrev pub named : Option String → Result String
  named none = raised value_error
  named (some name) = ok name

  abbrev pub local_name : String → Result String
  local_name source =
      if files.exists source then named (files.header_name source) else raised (external "IOError")

  abbrev pub uploaded_name : String → Option String → Result String
  uploaded_name source none = local_name source
  uploaded_name source (some stem) = ok stem

  -- The name of the package that a source is for.
  unfoldable pub rpm_name : String → Result String
  unfolding starts_with strip_suffix
  rpm_name source =
      if starts_with "cli-build/" source && is_some (strip_suffix ".src.rpm" source)
      then uploaded_name source (strip_suffix ".src.rpm" (files.basename source))
      else local_name source

  -- The first source for a package counts.
  abbrev pub add_override : Result String → String → Overrides → Result Overrides
  add_override (raised e) source overrides = raised e
  add_override (ok name) source overrides =
      ok (if is_some (find_override name overrides) then overrides else (name, source) ∷ overrides)

  abbrev pub then_all : (Overrides → Result Overrides) → Result Overrides → Result Overrides
  then_all rest (raised e) = raised e
  then_all rest (ok overrides) = rest overrides

  unfoldable pub add_overrides : List String → Overrides → Result Overrides
  unfolding rpm_name
  add_overrides [] overrides = ok overrides
  add_overrides (source ∷ sources) overrides =
      then_all (add_overrides sources) (add_override (rpm_name source) source overrides)

  -- The list, or nothing where the column is empty; a text that is no list of sources raises.
  unfoldable pub get_module_srpm_overrides : Option (Result (List String)) → Result Overrides
  unfolding add_overrides
  get_module_srpm_overrides none = ok []
  get_module_srpm_overrides (some (raised e)) = raised value_error
  get_module_srpm_overrides (some (ok sources)) = add_overrides sources []
