-- ===== src/Store/Workspaces.antt =====
-- internal/store/memory/workspaces.go, WorkspaceRepository.
use ants.Prelude.{◌&&◌, List, Text, text_eq, Int64, keep, sort, ltb}
use ants.Domain.Errors.{Result, ok, ◌>>=◌, ◌>>◌, refuse_if, conflictf}
use ants.Domain.Workspace.{Workspace}
use ants.Store.Assoc.{lookup, put}
use ants.Store.Rows.{Rows, Versioned, has, values, find_own, update_row}
use ants.Store.Database.{Database}

abbrev pub ws_rows : Rows Workspace
ws_rows = record {
  key = λ (r : Workspace). r.id;
  tenant_of = λ (r : Workspace). r.tenant_id;
  missing = "workspace_not_found";
}

abbrev pub versioned_workspaces : Versioned Workspace
versioned_workspaces = record {
  rows = ws_rows;
  version_of = λ (r : Workspace). r.version;
  with_version = λ v (r : Workspace). record r { version = v };
}

unfoldable pub create : Workspace → Database → Result Database
create ws db = do
  refuse_if (has (lookup ws.id db.workspaces)) (conflictf "workspace_exists")
  ok (record db { workspaces = put ws.id ws db.workspaces })

unfoldable pub get : (tenant_id id : Text) → Database → Result Workspace
get tenant_id id db = find_own ws_rows tenant_id id db.workspaces

unfoldable pub update :
    Workspace → (expected_version : Int64) → Database → Result (Database × Workspace)
update ws expected_version db = do
  (rows, stored) ← update_row versioned_workspaces ws expected_version db.workspaces
  ok (record db { workspaces = rows }, stored)

-- In the order of creation.
unfoldable pub list_by_run : (tenant_id run_id : Text) → Database → List Workspace
list_by_run tenant_id run_id db =
    sort (λ (a b : Workspace). ltb a.created_at b.created_at)
      (keep (λ (r : Workspace). text_eq r.run_id run_id && text_eq r.tenant_id tenant_id)
        (values db.workspaces))
