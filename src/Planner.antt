-- ===== src/Planner.antt =====
-- internal/planner/planner.go: a request is matched against the capabilities that the repository
-- declares. The YAML decoder and `strings.ToLower` are library functions, and parameters: `decode`
-- and `to_lower`. A Go map is its entries in the order in which it is ranged over. A capability's
-- keywords are searched in bytes.
pub mod Branch
pub mod Laws
pub mod Validity
use ants.Prelude.{
  Bool, true, false, not, ◌&&◌, ◌||◌, ◌==◌, Option, none, some, List, [], ◌∷◌, map, Text, bytes,
  text_eq, is_empty, Int64, all, any, keep, if◌then◌else◌,
}
use ants.Domain.Errors.{
  Error, Result, ok, err, ◌>>=◌, ◌>>◌, refuse_if, invalidf, conflictf, not_foundf,
}
use ants.Domain.Spec.{SpecContent}
use ants.Store.Assoc.{Assoc, lookup}
use Branch.{branch_for}

pub record PlanInput : Type 0 where
  pub tenant_id : Text
  pub thread_id : Text
  pub request : Text
  pub repo_files : Assoc Text

pub record TaskTemplate : Type 0 where
  pub name : Text
  pub branch : Text
  pub commit_message : Text
  pub writes : List Text
  pub files : Assoc Text
  pub verify_commands : List (List Text)

pub record Output : Type 0 where
  pub spec : SpecContent
  pub tasks : List TaskTemplate
  pub integrated_verification : List (List Text)

pub record CapabilityTask : Type 0 where
  pub name : Text
  pub writes : List Text
  pub commit_message : Text
  pub files : Assoc Text
  pub verify_commands : List (List Text)

-- The specification of a capability has the fields of a content.
pub record Capability : Type 0 where
  pub id : Text
  pub request_keywords : List Text
  pub spec : SpecContent
  pub tasks : List CapabilityTask
  pub verify_all : List (List Text)

pub record Catalog : Type 0 where
  pub version : Int64
  pub capabilities : List Capability

abbrev pub catalog_path : Text
catalog_path = bytes ".ants/capabilities.yaml"

abbrev pub catalog_error : Error
catalog_error = invalidf "capabilities_catalog"

abbrev pub is_nil {ℓ} : {A : Type ℓ} → List A → Bool
is_nil [] = true
is_nil (x ∷ xs) = false

unfoldable pub validate_tasks : List CapabilityTask → Result (Unit {0})
validate_tasks [] = ok tt
validate_tasks (t ∷ ts) = do
  refuse_if (is_empty t.name || is_empty t.commit_message) catalog_error
  refuse_if (is_nil t.files) catalog_error
  validate_tasks ts

unfoldable pub validate_capability : (seen : List Text) → Capability → Result (Unit {0})
unfolding validate_tasks
validate_capability seen cap = do
  refuse_if (is_empty cap.id || any (text_eq cap.id) seen) catalog_error
  refuse_if (is_nil cap.request_keywords) catalog_error
  refuse_if (is_nil cap.tasks) catalog_error
  validate_tasks cap.tasks
  refuse_if (is_nil cap.verify_all) catalog_error

unfoldable pub validate_all : (seen : List Text) → List Capability → Result (Unit {0})
unfolding validate_capability
validate_all seen [] = ok tt
validate_all seen (cap ∷ caps) = do validate_capability seen cap; validate_all (cap.id ∷ seen) caps

unfoldable pub validate : Catalog → Result (Unit {0})
unfolding validate_all
validate c = do
  refuse_if (not (c.version == 1)) catalog_error
  refuse_if (is_nil c.capabilities) catalog_error
  validate_all [] c.capabilities

-- `strings.HasPrefix` and `strings.Contains`.
unfoldable pub has_prefix : Text → (prefix : Text) → Bool
has_prefix s [] = true
has_prefix [] (d ∷ p) = false
has_prefix (c ∷ s) (d ∷ p) = (c == d) && has_prefix s p

unfoldable pub contains : Text → (substr : Text) → Bool
unfolding has_prefix
contains [] sub = is_empty sub
contains (c ∷ s) sub = has_prefix (c ∷ s) sub || contains s sub

abbrev keys_of : Assoc Text → List Text
keys_of files = map (λ row. row.0) files

unfoldable pub template : CapabilityTask → TaskTemplate
unfolding branch_for
template t = record {
  name = t.name;
  branch = branch_for t.name;
  commit_message = t.commit_message;
  writes = if is_nil t.writes then keys_of t.files else t.writes;
  files = t.files;
  verify_commands = t.verify_commands;
}

unfoldable pub render : Capability → Output
unfolding template
render cap = record {
  spec = cap.spec;
  tasks = map template cap.tasks;
  integrated_verification = cap.verify_all;
}

-- The `switch` on the number of candidates.
unfoldable pub choose : (candidates : List Capability) → Result Output
unfolding render
choose [] = err (invalidf "plan_no_matching_capability")
choose (cap ∷ []) = ok (render cap)
choose (cap ∷ other ∷ more) = err (conflictf "plan_ambiguous_request")

abbrev or_malformed : Option Catalog → Result Catalog
or_malformed none = err catalog_error
or_malformed (some cat) = ok cat

abbrev or_missing : Option Text → Result Text
or_missing none = err (not_foundf "capabilities catalog_not_found")
or_missing (some raw) = ok raw

-- Every keyword stands in the request, which is in lower case already.
unfoldable pub matches : (to_lower : Text → Text) → (request : Text) → Capability → Bool
unfolding contains
matches to_lower request cap = all (λ kw. contains request (to_lower kw)) cap.request_keywords

unfoldable pub parse_catalog :
    (decode : Text → Option Catalog) → (files : Assoc Text) → Result Catalog
unfolding validate
parse_catalog decode files = do
  raw ← or_missing (lookup catalog_path files)
  cat ← or_malformed (decode raw)
  validate cat
  ok cat

unfoldable pub plan :
    (decode : Text → Option Catalog) → (to_lower : Text → Text) → PlanInput → Result Output
unfolding parse_catalog matches choose
plan decode to_lower input = do
  cat ← parse_catalog decode input.repo_files
  choose (keep (matches to_lower (to_lower input.request)) cat.capabilities)
