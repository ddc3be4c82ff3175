-- ===== src/Tests/Planner.antt =====
-- The planner at concrete inputs.
use ants.Prelude.{◌≡◌, ◌↔◌, refl, false, some, [], ◌∷◌, ◌++◌, Text, bytes, text_eq, All}
use ants.Domain.Errors.{ok}
use ants.Store.Assoc.{lookup}
use ants.Planner.{
  Capability, CapabilityTask, Catalog, PlanInput, plan, matches, parse_catalog, render, validate,
  is_nil,
}
use ants.Planner.Laws.{plan-ok_iff, IsOnly}
use ants.Planner.Validity.{validate-ok, HaveDistinctIds, IsComplete}
use ants.Planner.Branch.{slug_for, branch_for}
use ants.Planner.Branch.Grammar.{branch_for-IsBranchSlug, IsBranchSlug}
use ants.Tests.Fixtures.{tenant}
use ants.Tests.World.{thread_id}

-- A catalog of one capability.
abbrev rename_task : CapabilityTask
rename_task = record {
  name = bytes "Rename it";
  writes = [];
  commit_message = bytes "rename";
  files = (bytes "a.txt", bytes "a") ∷ [];
  verify_commands = [];
}

abbrev capability : Capability
capability = record {
  id = bytes "rename";
  request_keywords = bytes "rename" ∷ [];
  spec = record {
    outcome = bytes "renamed";
    assumptions = [];
    requirements = bytes "it is renamed" ∷ [];
    non_goals = [];
    success_criteria = [];
    blockers = [];
  };
  tasks = rename_task ∷ [];
  verify_all = (bytes "true" ∷ []) ∷ [];
}

abbrev catalog : Catalog
catalog = record { version = 1; capabilities = capability ∷ [] }

valid_catalog : validate catalog ≡ ok tt
unfolding validate
valid_catalog = refl

validate-ok_example :
    (catalog.version ≡ 1)
    × (is_nil catalog.capabilities ≡ false)
    × HaveDistinctIds catalog.capabilities
    × All IsComplete catalog.capabilities
validate-ok_example = validate-ok catalog valid_catalog

abbrev plan_input : PlanInput
plan_input = record {
  tenant_id = tenant;
  thread_id = thread_id;
  request = bytes "please rename";
  repo_files = (bytes ".ants/capabilities.yaml", bytes "yaml") ∷ [];
}

planned : plan (λ _. some catalog) (λ s. s) plan_input ≡ ok (render capability)
unfolding plan lookup text_eq
planned = refl

plan-ok_iff_example : (plan (λ _. some catalog) (λ s. s) plan_input ≡ ok (render capability)) ↔ (
    (cat : Catalog) × (cap : Capability) × (parse_catalog (λ _. some catalog) plan_input.repo_files
      ≡ ok cat)
    × IsOnly (matches (λ s. s) plan_input.request) cap cat.capabilities
    × (render capability ≡ render cap))
plan-ok_iff_example = plan-ok_iff (λ _. some catalog) (λ s. s) plan_input (render capability)

same_branch : branch_for (bytes "Rename it!") ≡ branch_for (bytes "rename-it")
unfolding branch_for slug_for
same_branch = refl

branch_for-IsBranchSlug_example :
    (slug : Text) × (branch_for (bytes "Rename it!") ≡ bytes "ants/" ++ slug) × IsBranchSlug slug
branch_for-IsBranchSlug_example = branch_for-IsBranchSlug (bytes "Rename it!")
