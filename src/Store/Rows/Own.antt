-- ===== src/Store/Rows/Own.antt =====
-- internal/store/memory: a reader meets no rows of another tenant.
use ants.Prelude.{◌≡◌, ◌↔◌, arith, some, Text, text_eq_iff, Option-cases, inl, inr}
use ants.Domain.Errors.{Error, ok, err, not_foundf}
use ants.Store.Assoc.{Assoc, lookup}
use ants.Store.Rows.{Rows, find_own}

module _ {E : Type 0} (t : Rows E) where
  -- A look-up answers a row exactly if the row stands under the identifier and is the tenant's own.
  -- Whatever else it finds, nothing or a row of another tenant, the error is one and the same.
  pub find_own-ok_iff :
      (tenant_id id : Text) (m : Assoc E)
      → ((e : E)
          → (find_own t tenant_id id m ≡ ok e)
            ↔ ((lookup id m ≡ some e) × (t.tenant_of e ≡ tenant_id)))
        × ((x : Error) → find_own t tenant_id id m ≡ err x → x ≡ not_foundf t.missing)
  unfolding find_own
  find_own-ok_iff tenant_id id m = elim (Option-cases (lookup id m)) [
    | inl k ↦ (λ e. ground (arith, k), λ x h. ground (arith, k, h))
    | inr (a, k) ↦
        (λ e. ground (arith, k, text_eq_iff (t.tenant_of a) tenant_id), λ x h. ground (arith, k, h))
  ]
