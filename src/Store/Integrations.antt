-- ===== src/Store/Integrations.antt =====
-- internal/store/memory/audit.go, IntegrationRepository.
use ants.Prelude.{List, Text, text_eq, Int64, keep, sort, ltb}
use ants.Domain.Errors.{Result, ok, ◌>>=◌, ◌>>◌, refuse_if, conflictf}
use ants.Domain.Connection.{IntegrationConnection}
use ants.Store.Assoc.{lookup, put}
use ants.Store.Rows.{Rows, Versioned, has, values, find_own, update_row}
use ants.Store.Database.{Database}

abbrev pub conn_rows : Rows IntegrationConnection
conn_rows = record {
  key = λ (r : IntegrationConnection). r.id;
  tenant_of = λ (r : IntegrationConnection). r.tenant_id;
  missing = "integration connection_not_found";
}

abbrev pub versioned_integrations : Versioned IntegrationConnection
versioned_integrations = record {
  rows = conn_rows;
  version_of = λ (r : IntegrationConnection). r.version;
  with_version = λ v (r : IntegrationConnection). record r { version = v };
}

unfoldable pub create : IntegrationConnection → Database → Result Database
create conn db = do
  refuse_if (has (lookup conn.id db.integrations)) (conflictf "integration_exists")
  ok (record db { integrations = put conn.id conn db.integrations })

unfoldable pub get : (tenant_id id : Text) → Database → Result IntegrationConnection
get tenant_id id db = find_own conn_rows tenant_id id db.integrations

unfoldable pub update :
    IntegrationConnection
    → (expected_version : Int64) → Database
    → Result (Database × IntegrationConnection)
update conn expected_version db = do
  (rows, stored) ← update_row versioned_integrations conn expected_version db.integrations
  ok (record db { integrations = rows }, stored)

-- In the order of creation.
unfoldable pub list_by_tenant : (tenant_id : Text) → Database → List IntegrationConnection
list_by_tenant tenant_id db =
    sort (λ (a b : IntegrationConnection). ltb a.created_at b.created_at)
      (keep (λ (r : IntegrationConnection). text_eq r.tenant_id tenant_id) (values db.integrations))
