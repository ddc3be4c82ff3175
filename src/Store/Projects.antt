-- ===== src/Store/Projects.antt =====
-- internal/store/memory/tenants.go, ProjectRepository.
use ants.Prelude.{List, Text, text_eq, keep, sort, ltb}
use ants.Domain.Errors.{Result, ok, ◌>>◌, refuse_if, conflictf}
use ants.Domain.Tenant.{Project}
use ants.Store.Assoc.{lookup, put}
use ants.Store.Rows.{Rows, has, values, find_own}
use ants.Store.Database.{Database}

abbrev pub project_rows : Rows Project
project_rows = record {
  key = λ (r : Project). r.id;
  tenant_of = λ (r : Project). r.tenant_id;
  missing = "project_not_found";
}

unfoldable pub create : Project → Database → Result Database
create project db = do
  refuse_if (has (lookup project.id db.projects)) (conflictf "project_exists")
  ok (record db { projects = put project.id project db.projects })

unfoldable pub get : (tenant_id id : Text) → Database → Result Project
get tenant_id id db = find_own project_rows tenant_id id db.projects

-- In the order of creation.
unfoldable pub list_by_tenant : (tenant_id : Text) → Database → List Project
list_by_tenant tenant_id db =
    sort (λ (a b : Project). ltb a.created_at b.created_at)
      (keep (λ (r : Project). text_eq r.tenant_id tenant_id) (values db.projects))
