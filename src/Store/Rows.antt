-- ===== src/Store/Rows.antt =====
-- internal/store/memory: what the repositories of one table share. A table is a Go map from
-- identifiers to rows that belong to a tenant; some rows carry a version for optimistic updates.
pub mod Versions
pub mod Own
use ants.Prelude.{
  Bool, true, false, not, ◌==◌, Option, none, some, List, [], ◌∷◌, map, keep, String, Text, text_eq,
  Int64, inc, if◌then◌else◌,
}
use ants.Domain.Errors.{Result, ok, err, ◌>>=◌, ◌>>◌, refuse_if, not_foundf, stale_version}
use ants.Store.Assoc.{Assoc, lookup, put}

abbrev pub has {ℓ} : {A : Type ℓ} → Option A → Bool
has none = false
has (some v) = true

-- The rows of a map, in the order that its entries have here.
abbrev pub values {ℓ} : {E : Type ℓ} → Assoc E → List E
values m = map (λ row. row.1) m

-- The fields that the repository of a table reads, and the code of its not-found.
pub record Rows (E : Type 0) : Type 0 where
  pub key : E → Text
  pub tenant_of : E → Text
  pub missing : String

-- Those of a table whose rows are updated.
pub record Versioned (E : Type 0) : Type 0 where
  pub rows : Rows E
  pub version_of : E → Int64
  pub with_version : Int64 → E → E

module _ {E : Type 0} (t : Rows E) where
  abbrev own_or_missing : (tenant_id : Text) → Option E → Result E
  own_or_missing tenant_id none = err (not_foundf t.missing)
  own_or_missing tenant_id (some e) =
      if text_eq (t.tenant_of e) tenant_id then ok e else err (not_foundf t.missing)

  -- `row, ok := m[id]; if !ok || row.TenantID != tenantID { return notFound }`.
  unfoldable pub find_own : (tenant_id id : Text) → Assoc E → Result E
  find_own tenant_id id m = own_or_missing tenant_id (lookup id m)

module _ {E : Type 0} (t : Versioned E) where
  -- The new map and the caller's row, which is told its version.
  unfoldable pub update_row : E → (expected_version : Int64) → Assoc E → Result (Assoc E × E)
  unfolding find_own
  update_row e expected_version m = do
    cur ← find_own t.rows (t.rows.tenant_of e) (t.rows.key e) m
    refuse_if (not (t.version_of cur == expected_version)) stale_version
    let stored = t.with_version (inc (t.version_of cur)) e
    ok (put (t.rows.key e) stored m, stored)
