-- ===== src/Policy.antt =====
-- internal/policy/engine.go and internal/domain/policy.go: the capability boundary. An action is a
-- string of the source: each constant is a constructor, any other string is `other`. A reason is the
-- text that the engine gives, by constructor. The two stores that it writes to are a parameter.
pub mod Laws
use ants.Prelude.{
  ℕ, Bool, true, false, ◌||◌, Option, none, some, [], ◌∷◌, Text, bytes, is_empty, Time, Entropy,
  if◌then◌else◌,
}
use ants.Domain.Errors.{ErrorKind, Error, Result, ok, err, ◌>>=◌, ◌>>◌}
use ants.Domain.Ids.{Entity, prefix, parse_id, new_id}
use ants.Domain.Audit.{AuditResult, allowed, denied, Actor, PrincipalKind, Value, Metadata}
use ants.Correlation.{trace_id}

pub data Outcome : Type 0 where
  allow deny require_approval : Outcome

pub data PolicyAction : Type 0 where
  sandbox_create sandbox_exec scm_local_commit scm_push scm_merge_to_protected : PolicyAction
  network_access secret_read host_mutation global_install outbox_requeue outbox_discard :
      PolicyAction
  other : Text → PolicyAction

pub record PolicyRequest : Type 0 where
  pub tenant_id : Text
  pub run_id : Text
  pub task_id : Text
  pub principal : Text
  pub action : PolicyAction
  pub resource : Text

pub data Reason : Type 0 where
  actor_invalid tenant_invalid commits_allowed commits_disabled sandbox_allowed no_push : Reason
  merge_is_human no_network no_secrets outside_root no_global_install : Reason
  unknown_action : PolicyAction → Reason

pub record PolicyDecision : Type 0 where
  pub id : Text
  pub tenant_id : Text
  pub request : PolicyRequest
  pub outcome : Outcome
  pub reason : Reason
  pub policy_version : Text
  pub created_at : Time

-- The record of internal/domain/audit.go.
pub record AuditEvent : Type 0 where
  pub id : Text
  pub tenant_id : Text
  pub actor : Actor
  pub action : PolicyAction
  pub resource_type : Text
  pub resource_id : Text
  pub result : AuditResult
  pub trace_id : Text
  pub metadata : Metadata
  pub at : Time

abbrev pub version : Text
version = bytes "policy.v1"

-- The rule table, for a request whose actor and tenant are known.
abbrev pub rule : (allow_local_commits : Bool) → PolicyAction → Outcome × Reason
rule allow_commits scm_local_commit =
    if allow_commits then (allow, commits_allowed) else (deny, commits_disabled)
rule allow_commits sandbox_create = (allow, sandbox_allowed)
rule allow_commits sandbox_exec = (allow, sandbox_allowed)
rule allow_commits scm_push = (deny, no_push)
rule allow_commits scm_merge_to_protected = (deny, merge_is_human)
rule allow_commits network_access = (deny, no_network)
rule allow_commits secret_read = (deny, no_secrets)
rule allow_commits host_mutation = (deny, outside_root)
rule allow_commits global_install = (deny, no_global_install)
rule allow_commits outbox_requeue = (deny, unknown_action outbox_requeue)
rule allow_commits outbox_discard = (deny, unknown_action outbox_discard)
rule allow_commits (other s) = (deny, unknown_action (other s))

abbrev pub is_ok {ℓ} : {A : Type ℓ} → Result A → Bool
is_ok (ok a) = true
is_ok (err e) = false

unfoldable pub decide : (allow_local_commits : Bool) → PolicyRequest → Outcome × Reason
decide allow_commits req =
    if is_ok (parse_id Entity.principal req.principal)
    then if is_ok (parse_id Entity.tenant req.tenant_id)
      then rule allow_commits req.action
      else (deny, tenant_invalid)
    else (deny, actor_invalid)

unfoldable pub decision :
    (allow_local_commits : Bool) → PolicyRequest → Time → (id : Text) → PolicyDecision
decision allow_commits req now id =
    let (outcome, reason) = decide allow_commits req in
    record {
      id = id;
      tenant_id = req.tenant_id;
      request = req;
      outcome = outcome;
      reason = reason;
      policy_version = version;
      created_at = now;
    }

-- The decision store and the audit store, over a state of their own.
pub record Stores : Type 1 where
  pub S : Type 0
  pub record_decision : PolicyDecision → S → Result S
  pub append_audit : AuditEvent → S → Result S

abbrev result_of : Outcome → AuditResult
result_of allow = allowed
result_of deny = denied
result_of require_approval = denied

abbrev internal : Error
internal = record { kind = ErrorKind.internal; code = "" }

abbrev outcome_text : Outcome → Text
outcome_text allow = bytes "allow"
outcome_text deny = bytes "deny"
outcome_text require_approval = bytes "require_approval"

-- The zero value, which the engine leaves in the event.
abbrev no_actor : Actor
no_actor = record { kind = PrincipalKind.other []; id = [] }

unfoldable pub audit_event : PolicyDecision → (carried : Option Text) → (id : Text) → AuditEvent
audit_event d carried id = record {
  id = id;
  tenant_id = d.tenant_id;
  actor = no_actor;
  action = d.request.action;
  resource_type = bytes "policy_decision";
  resource_id = d.id;
  result = result_of d.outcome;
  trace_id = trace_id carried [];
  metadata =
      (bytes "outcome", Value.text (outcome_text d.outcome))
      ∷ (bytes "policy_version", Value.text d.policy_version)
      ∷ (bytes "principal", Value.text d.request.principal)
      ∷ [];
  at = d.created_at;
}

abbrev granted_or_denied : PolicyDecision → Outcome → Option Error
granted_or_denied d allow = none
granted_or_denied d deny = some (record { kind = ErrorKind.policy_denied; code = "policy_deny" })
granted_or_denied d require_approval =
    some (record { kind = ErrorKind.policy_denied; code = "policy_approval_required" })

module _ (stores : Stores) where
  unfoldable pub append_event :
      PolicyDecision
      → (carried : Option Text) → Entropy
      → stores.S
      → stores.S × Result PolicyDecision
  append_event d carried entropy st = elim (new_id (prefix Entity.audit_event) entropy) [
    | none ↦ (st, err internal)
    | some id ↦ elim (stores.append_audit (audit_event d carried id) st) [
      | ok st' ↦ (st', ok d)
      | err e ↦ (st, err e)
    ]
  ]

  unfoldable pub persist :
      PolicyDecision
      → (carried : Option Text) → Entropy
      → stores.S
      → stores.S × Result PolicyDecision
  persist d carried entropy st = elim (stores.record_decision d st) [
    | ok st' ↦ append_event d carried entropy st'
    | err e ↦ (st, err e)
  ]

  -- `carried` is the correlation identifier of the context; the two entropies are those of the two
  -- identifiers. A failure leaves what was written before it.
  unfoldable pub evaluate :
      (allow_local_commits : Bool)
      → PolicyRequest
      → Time
      → (carried : Option Text) → (e₁ e₂ : Entropy) → stores.S
      → stores.S × Result PolicyDecision
  unfolding persist append_event
  evaluate allow_commits req now carried e₁ e₂ st =
      elim (new_id (prefix Entity.policy_decision) e₁) [
        | none ↦ (st, err internal)
        | some id ↦ persist (decision allow_commits req now id) carried e₂ st
      ]

  -- The decision and the error that `Authorize` answers: a denial has both.
  abbrev pub enforce :
      stores.S × Result PolicyDecision → stores.S × Option PolicyDecision × Option Error
  enforce (st, ok d) = (st, some d, granted_or_denied d d.outcome)
  enforce (st, err e) = (st, none, some e)

  unfoldable pub authorize :
      (allow_local_commits : Bool)
      → PolicyRequest
      → Time
      → (carried : Option Text) → (e₁ e₂ : Entropy) → stores.S
      → stores.S × Option PolicyDecision × Option Error
  authorize allow_commits req now carried e₁ e₂ st =
      enforce (evaluate allow_commits req now carried e₁ e₂ st)
