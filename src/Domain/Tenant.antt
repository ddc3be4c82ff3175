-- ===== src/Domain/Tenant.antt =====
-- internal/domain/tenant.go: tenants, projects and their slugs.
use ants.Prelude.{
  ℕ, Bool, true, false, not, ◌||◌, [], ◌∷◌, Text, is_empty, is_between, length, all, ltb, ◌==◌,
  Int64, Time,
}
use ants.Domain.Errors.{Result, ok, ◌>>=◌, ◌>>◌, refuse_if, invalidf}
use ants.Domain.Ids.{Entity, parse_id}

pub data TenantStatus : Type 0 where
  active suspended deleted : TenantStatus

pub data PlanTier : Type 0 where
  free team enterprise : PlanTier
  other : Text → PlanTier

abbrev is_valid_plan : PlanTier → Bool
is_valid_plan (other s) = false
is_valid_plan free = true
is_valid_plan team = true
is_valid_plan enterprise = true

abbrev pub max_slug_len : ℕ
max_slug_len = 64

abbrev pub is_slug_char : ℕ → Bool
is_slug_char c = is_between b'a' b'z' c || is_between b'0' b'9' c || c == b'-'

-- `slug[0]` and `slug[len(slug)-1]`, of a slug that is not empty.
abbrev pub first : Text → ℕ
first [] = 0
first (c ∷ s) = c

abbrev pub last : Text → ℕ
last [] = 0
last (c ∷ []) = c
last (c ∷ d ∷ s) = last (d ∷ s)

unfoldable pub validate_slug : Text → Result (Unit {0})
validate_slug slug = do
  refuse_if (is_empty slug) (invalidf "slug")
  refuse_if (ltb max_slug_len (length slug)) (invalidf "slug")
  refuse_if (not (all is_slug_char slug)) (invalidf "slug")
  refuse_if (first slug == b'-' || last slug == b'-') (invalidf "slug")

pub record Tenant : Type 0 where
  pub id : Text
  pub slug : Text
  pub name : Text
  pub plan : PlanTier
  pub region : Text
  pub status : TenantStatus
  pub version : Int64
  pub created_at : Time
  pub updated_at : Time

unfoldable pub new_tenant :
    (id slug name : Text) (plan : PlanTier) (region : Text) (now : Time) → Result Tenant
unfolding validate_slug
new_tenant id slug name plan region now = do
  _ ← parse_id Entity.tenant id
  validate_slug slug
  refuse_if (is_empty name) (invalidf "tenant_name")
  refuse_if (not (is_valid_plan plan)) (invalidf "tenant_plan")
  ok (record {
    id = id;
    slug = slug;
    name = name;
    plan = plan;
    region = region;
    status = active;
    version = 1;
    created_at = now;
    updated_at = now;
  })

pub record Project : Type 0 where
  pub id : Text
  pub tenant_id : Text
  pub slug : Text
  pub name : Text
  pub default_branch : Text
  pub seed_name : Text
  pub version : Int64
  pub created_at : Time

unfoldable pub new_project :
    (id tenant_id slug name default_branch seed_name : Text) (now : Time) → Result Project
unfolding validate_slug
new_project id tenant_id slug name default_branch seed_name now = do
  _ ← parse_id Entity.project id
  validate_slug slug
  refuse_if (is_empty name) (invalidf "project_name")
  refuse_if (is_empty default_branch) (invalidf "project_default_branch")
  ok (record {
    id = id;
    tenant_id = tenant_id;
    slug = slug;
    name = name;
    default_branch = default_branch;
    seed_name = seed_name;
    version = 1;
    created_at = now;
  })
