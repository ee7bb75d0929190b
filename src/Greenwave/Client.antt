-- ===== src/Greenwave/Client.antt =====
-- The class `Greenwave` of module_build_service/scheduler/greenwave.py, over the replies of the
-- service.
use fm_orchestrator.Common.{
  ℕ, Bool, true, false, Option, none, some, String, List, [], ◌∷◌, ◌++◌, if◌then◌else◌, string_eq,
  nat_eq, ◌==◌,
}
use fm_orchestrator.Exec.{Result, ok, raised, Error, key_error, external}

-- How a request ends: it times out, raises another exception, or is answered, with a document
-- where the body is JSON.
pub data Reply (J : Type 0) : Type 0 where
  timed_out failed : Reply J
  answered : (status_code : ℕ) (json : Option J) → Reply J

abbrev pub greenwave_error : Error
greenwave_error = external "GreenwaveError"

module _ {J : Type 0} where
  abbrev pub with_status : ℕ → J → Result J
  with_status status_code json = if status_code == 200 then ok json else raised greenwave_error

  -- _greenwave_query
  unfoldable pub greenwave_query : Reply J → Result J
  greenwave_query timed_out = raised greenwave_error
  greenwave_query failed = raised greenwave_error
  greenwave_query (answered status_code none) = raised greenwave_error
  greenwave_query (answered status_code (some json)) = with_status status_code json

-- A policy of the service, each of its keys present or not.
pub record Policy : Type 0 where
  pub decision_context : Option String
  pub subject_type : Option String
  pub product_versions : Option (List String)

-- The two documents, by the keys that the code reads.
pub record Policies : Type 0 where
  pub policies : Option (List Policy)

pub record Decision : Type 0 where
  pub policies_satisfied : Option Bool

-- The settings, and the reply to each request.
pub record Client : Type 0 where
  pub decision_context : String
  pub subject_type : String
  pub policies_reply : Reply Policies
  pub decision_reply : (subject_identifier product_version : String) → Reply Decision

module _ (client : Client) where
  -- The test of the comprehension, which raises a KeyError at a key that is looked up and missing.
  abbrev pub matches_type : Option String → Result Bool
  matches_type none = raised key_error
  matches_type (some t) = ok (t == client.subject_type)

  abbrev pub is_selected : Policy → Option String → Result Bool
  is_selected p none = raised key_error
  is_selected p (some context) =
      if context == client.decision_context then matches_type p.subject_type else ok false

  abbrev pub keep_policy : Policy → Result Bool → Result (List Policy) → Result (List Policy)
  keep_policy p (raised e) rest = raised e
  keep_policy p (ok b) (raised e) = raised e
  keep_policy p (ok b) (ok ps) = ok (if b then p ∷ ps else ps)

  unfoldable pub select_policies : List Policy → Result (List Policy)
  select_policies [] = ok []
  select_policies (p ∷ ps) = keep_policy p (is_selected p p.decision_context) (select_policies ps)

  -- "except KeyError"
  abbrev pub key_error_caught : Result (List Policy) → Result (List Policy)
  key_error_caught (raised e) = raised greenwave_error
  key_error_caught (ok ps) = ok ps

  abbrev pub select_from : Option (List Policy) → Result (List Policy)
  select_from none = raised greenwave_error
  select_from (some ps) = key_error_caught (select_policies ps)

  abbrev pub selected_policies : Result Policies → Result (List Policy)
  selected_policies (raised e) = raised e
  selected_policies (ok response) = select_from response.policies

  -- query_policies()["policies"], with return_all left at False
  unfoldable pub query_policies : Result (List Policy)
  unfolding select_policies greenwave_query
  query_policies = selected_policies (greenwave_query client.policies_reply)

  -- The union of the sets; the order of a set and what stands in it twice do not matter below.
  abbrev pub union_versions : Option (List String) → Result (List String) → Result (List String)
  union_versions none rest = raised key_error
  union_versions (some vs) (raised e) = raised e
  union_versions (some vs) (ok ws) = ok (vs ++ ws)

  abbrev pub versions_of : List Policy → Result (List String)
  versions_of [] = ok []
  versions_of (p ∷ ps) = union_versions p.product_versions (versions_of ps)

  abbrev pub policy_versions : Result (List Policy) → Result (List String)
  policy_versions (raised e) = raised e
  policy_versions (ok ps) = versions_of ps

  -- get_product_versions
  unfoldable pub get_product_versions : Result (List String)
  unfolding query_policies
  get_product_versions = policy_versions query_policies

  -- self.query_decision(build, ver)["policies_satisfied"]
  abbrev pub required_key : Option Bool → Result Bool
  required_key none = raised key_error
  required_key (some b) = ok b

  abbrev pub satisfied : Result Decision → Result Bool
  satisfied (raised e) = raised e
  satisfied (ok decision) = required_key decision.policies_satisfied

  unfoldable pub query_satisfied : String → String → Result Bool
  unfolding greenwave_query
  query_satisfied nvr version = satisfied (greenwave_query (client.decision_reply nvr version))

  -- One round of the loop: the answer and error_occurred, with those of the other rounds.
  abbrev pub next_version : Result Bool → Bool → (Bool → Bool × Bool) → Bool × Bool
  next_version (raised e) error_occurred rest = rest true
  next_version (ok true) error_occurred rest = (true, error_occurred)
  next_version (ok false) error_occurred rest = rest error_occurred

  unfoldable pub check_versions : String → List String → Bool → Bool × Bool
  unfolding query_satisfied
  check_versions nvr [] error_occurred = (false, error_occurred)
  check_versions nvr (v ∷ vs) error_occurred =
      next_version (query_satisfied nvr v) error_occurred (check_versions nvr vs)

  -- Only a GreenwaveError is caught around get_product_versions.
  abbrev pub with_versions : String → Result (List String) → Result (Bool × Bool)
  with_versions nvr (ok versions) = ok (check_versions nvr versions false)
  with_versions nvr (raised (external name)) = ok (false, true)
  with_versions nvr (raised e) = raised e

  -- check_gating, with the attribute error_occurred that it leaves. The build is given by its
  -- nvr_string.
  unfoldable pub check_gating : String → Result (Bool × Bool)
  unfolding check_versions get_product_versions
  check_gating nvr = with_versions nvr get_product_versions
