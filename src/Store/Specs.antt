-- ===== src/Store/Specs.antt =====
-- internal/store/memory/threads.go, SpecRepository.
pub mod Latest
use ants.Prelude.{
  Bool, not, ◌&&◌, Option, none, some, List, [], ◌∷◌, Text, text_eq, slt, if◌then◌else◌,
}
use ants.Domain.Errors.{Result, ok, err, ◌>>=◌, ◌>>◌, refuse_if, invalidf, conflictf, not_foundf}
use ants.Domain.Spec.{Spec}
use ants.Store.Assoc.{lookup, put}
use ants.Store.Rows.{Rows, has, values, find_own}
use ants.Store.Threads.{has_thread}
use ants.Store.Database.{Database}

abbrev pub spec_rows : Rows Spec
spec_rows = record {
  key = λ (s : Spec). s.id;
  tenant_of = λ (s : Spec). s.tenant_id;
  missing = "spec_not_found";
}

unfoldable pub create : Spec → Database → Result Database
create spec db = do
  refuse_if (not (has_thread spec.tenant_id spec.thread_id db)) (invalidf "spec_thread_unknown")
  refuse_if (has (lookup spec.id db.specs)) (conflictf "spec_exists")
  ok (record db { specs = put spec.id spec db.specs })

unfoldable pub get : (tenant_id id : Text) → Database → Result Spec
get tenant_id id db = find_own spec_rows tenant_id id db.specs

abbrev pub is_of : (tenant_id thread_id : Text) → Spec → Bool
is_of tenant_id thread_id s = text_eq s.thread_id thread_id && text_eq s.tenant_id tenant_id

-- `if latest == nil || s.Version > latest.Version { latest = s }`.
abbrev pub newer : Option Spec → Spec → Spec
newer none s = s
newer (some latest) s = if slt latest.version s.version then s else latest

-- The loop over the specifications.
unfoldable pub pick_latest : (tenant_id thread_id : Text) → Option Spec → List Spec → Option Spec
pick_latest tenant_id thread_id latest [] = latest
pick_latest tenant_id thread_id latest (s ∷ specs) =
    pick_latest tenant_id thread_id
      (if is_of tenant_id thread_id s then some (newer latest s) else latest) specs

abbrev pub or_missing : Option Spec → Result Spec
or_missing none = err (not_foundf "spec_not_found")
or_missing (some s) = ok s

unfoldable pub latest_for_thread : (tenant_id thread_id : Text) → Database → Result Spec
latest_for_thread tenant_id thread_id db =
    or_missing (pick_latest tenant_id thread_id none (values db.specs))
