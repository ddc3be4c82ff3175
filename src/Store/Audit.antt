-- ===== src/Store/Audit.antt =====
-- internal/store/memory/audit.go, AuditRepository and PolicyDecisionRepository.
use ants.Prelude.{
  Option, none, some, List, [], ◌∷◌, ◌++◌, Text, text_eq, is_empty, Int64, keep, if◌then◌else◌,
}
use ants.Policy.{AuditEvent, PolicyDecision}
use ants.Store.Assoc.{lookup, put}
use ants.Store.Page.{collect}
use ants.Store.Database.{Database}

unfoldable pub append_audit : AuditEvent → Database → Database
append_audit event db = record db { audit_log = db.audit_log ++ event ∷ [] }

-- `auditLog[start:]`, where `start` is behind the event of the cursor; an identifier that no event
-- has starts at the beginning.
unfoldable pub rest_after : (after : Text) (whole log : List AuditEvent) → List AuditEvent
rest_after after whole [] = whole
rest_after after whole (e ∷ log) =
    let rest = rest_after after whole log in if text_eq e.id after then log else rest

unfoldable pub list_audit : (tenant_id after : Text) (limit : Int64) → Database → List AuditEvent
list_audit tenant_id after limit db =
    collect (λ (e : AuditEvent). text_eq e.tenant_id tenant_id) limit 0
      (if is_empty after then db.audit_log else rest_after after db.audit_log db.audit_log)

-- An entry that the map does not have reads as no decisions.
abbrev or_nil : Option (List PolicyDecision) → List PolicyDecision
or_nil none = []
or_nil (some ds) = ds

unfoldable pub decisions_of : (run_id : Text) → Database → List PolicyDecision
decisions_of run_id db = or_nil (lookup run_id db.policy_by_run)

unfoldable pub record_decision : PolicyDecision → Database → Database
record_decision d db = record db {
  policy_by_run =
      put d.request.run_id (decisions_of d.request.run_id db ++ d ∷ []) db.policy_by_run;
}

unfoldable pub list_decisions : (tenant_id run_id : Text) → Database → List PolicyDecision
list_decisions tenant_id run_id db =
    keep (λ (d : PolicyDecision). text_eq d.tenant_id tenant_id) (decisions_of run_id db)
