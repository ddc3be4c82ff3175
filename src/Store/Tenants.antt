-- ===== src/Store/Tenants.antt =====
-- internal/store/memory/tenants.go, TenantRepository. The slug index holds identifiers of tenants that
-- are there: `get_by_slug` would panic on another, and answers not found here.
use ants.Prelude.{Option, none, some, Text}
use ants.Domain.Errors.{Result, ok, err, ◌>>◌, refuse_if, conflictf, not_foundf}
use ants.Domain.Tenant.{Tenant}
use ants.Store.Assoc.{lookup, put}
use ants.Store.Rows.{has}
use ants.Store.Database.{Database}

unfoldable pub create : Tenant → Database → Result Database
create tenant db = do
  refuse_if (has (lookup tenant.id db.tenants)) (conflictf "tenant_exists")
  refuse_if (has (lookup tenant.slug db.tenant_slugs)) (conflictf "tenant_slug_taken")
  ok (record db {
    tenants = put tenant.id tenant db.tenants;
    tenant_slugs = put tenant.slug tenant.id db.tenant_slugs;
  })

abbrev or_missing : Option Tenant → Result Tenant
or_missing none = err (not_foundf "tenant_not_found")
or_missing (some t) = ok t

unfoldable pub get : (id : Text) → Database → Result Tenant
get id db = or_missing (lookup id db.tenants)

unfoldable pub get_by_slug : (slug : Text) → Database → Result Tenant
get_by_slug slug db = elim (lookup slug db.tenant_slugs) [
  | none ↦ err (not_foundf "tenant_not_found")
  | some id ↦ or_missing (lookup id db.tenants)
]
