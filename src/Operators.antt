-- ===== src/Operators.antt =====
-- internal/outboxops/service.go: an operator's decision about a dead letter, its event, the event's
-- delivery and its audit record, in one unit of work. `Now` and `NewID` are called in turn: their
-- answers are a record here. The result that goes with an error is not looked at, and left out.
pub mod Trail
use ants.Prelude.{
  Bool, Option, none, some, List, [], ◌∷◌, Text, bytes, is_empty, Time, Entropy, if◌then◌else◌,
}
use ants.Domain.Errors.{ErrorKind, Error, Result, ok, err}
use ants.Domain.Ids.{Entity}
use ants.Domain.Audit.{AuditResult, Value, Metadata}
use ants.Domain.Event.{Event, EventType}
use ants.Policy.{AuditEvent, PolicyAction}
use ants.Ports.Outbox.{
  OutboxMutationRequest, OutboxMutationResult, Action, requeue, discard, ListDeadLettersRequest,
  DeadLetterSummary,
}
use ants.Store.Database.{Database}
use ants.Store.Outbox.{
  Outbox, requeue_dead_letter, discard_dead_letter, list_dead_letters, get_dead_letter,
}
use ants.Store.Events.{append}
use ants.Store.Audit.{append_audit}
use ants.Store.Transactor as Transactor
use ants.Store.Transactor.{transact, return, new_id_or_fail, ◌>>=◌, ◌>>◌}

pub data Outcome : Type 0 where
  succeeded stale_credential invalid_state not_found invalid_request failed : Outcome

-- What the store's clock, the service's clock and the source of randomness show on the way.
pub record Moment : Type 0 where
  pub mutated_at : Time
  pub enqueued_at : Time
  pub audited_at : Time
  pub event_entropy : Entropy
  pub audit_entropy : Entropy

abbrev pub aggregate_outbox_message : Text
aggregate_outbox_message = bytes "outbox_message"

unfoldable pub outcome_of : Option Error → Outcome
outcome_of none = succeeded
outcome_of (some e) = elim e.kind [
  | ErrorKind.conflict ↦ stale_credential
  | ErrorKind.invalid_transition ↦ invalid_state
  | ErrorKind.not_found ↦ not_found
  | ErrorKind.invalid ↦ invalid_request
  | _ ↦ failed
]

unfoldable pub audit_action : Action → PolicyAction
audit_action requeue = PolicyAction.outbox_requeue
audit_action discard = PolicyAction.outbox_discard

-- The vocabulary of the action, as it is written into metadata.
abbrev action_name : Action → Text
action_name requeue = bytes "requeue"
action_name discard = bytes "discard"

abbrev event_type : Action → EventType
event_type requeue = EventType.outbox_dead_letter_requeued
event_type discard = EventType.outbox_dead_letter_discarded

abbrev reason_entry : OutboxMutationRequest → Metadata
reason_entry req =
    if is_empty req.reason then [] else ((bytes "reason", Value.text req.reason) ∷ [])

-- The counts before the reason.
abbrev decided : Action → OutboxMutationRequest → OutboxMutationResult → Metadata
decided action req res =
    (bytes "action", Value.text (action_name action))
    ∷ (bytes "attempts_before", Value.number res.attempts_before)
    ∷ (bytes "generation", Value.number res.generation)
    ∷ reason_entry req

unfoldable pub operator_event :
    Action → OutboxMutationRequest → OutboxMutationResult → (id : Text) → Event
operator_event action req res id = record {
  id = id;
  kind = event_type action;
  occurred_at = 0;
  tenant_id = req.tenant_id;
  aggregate_type = aggregate_outbox_message;
  aggregate_id = req.message_id;
  aggregate_version = res.generation;
  actor = req.actor;
  trace_id = req.trace_id;
  seq = 0;
  run_id = [];
  payload = (bytes "message_id", Value.text req.message_id) ∷ decided action req res;
}

unfoldable pub operator_audit :
    Action → OutboxMutationRequest → OutboxMutationResult → (id : Text) → Time → AuditEvent
unfolding audit_action
operator_audit action req res id at = record {
  id = id;
  tenant_id = req.tenant_id;
  actor = req.actor;
  action = audit_action action;
  resource_type = aggregate_outbox_message;
  resource_id = req.message_id;
  result = AuditResult.allowed;
  trace_id = req.trace_id;
  metadata = decided action req res;
  at = at;
}

-- `mutateFn`.
abbrev pub mutate_outbox :
    Action → OutboxMutationRequest → Time → Outbox → Result (Outbox × OutboxMutationResult)
mutate_outbox requeue req now st = requeue_dead_letter req now st
mutate_outbox discard req now st = discard_dead_letter req now st

abbrev with_outbox :
    Database → Result (Outbox × OutboxMutationResult) → Database × Result OutboxMutationResult
with_outbox db (ok (st, res)) = (record db { outbox = st }, ok res)
with_outbox db (err e) = (db, err e)

abbrev pub mutate_row :
    Action → OutboxMutationRequest → Time → Transactor.Action OutboxMutationResult
mutate_row action req now = λ db. with_outbox db (mutate_outbox action req now db.outbox)

abbrev pub audit : AuditEvent → Transactor.Action (Unit {0})
audit event = λ db. (append_audit event db, ok tt)

-- How the error of a unit is observed.
abbrev pub error_of : Result OutboxMutationResult → Option Error
error_of (ok res) = none
error_of (err e) = some e

module _ (marshal : Event → Option Text) where
  -- The function that `mutate` runs in the unit.
  unfoldable pub mutate_unit :
      Action → OutboxMutationRequest → Moment → Transactor.Action OutboxMutationResult
  unfolding operator_event operator_audit
  mutate_unit action req m = do
    res ← mutate_row action req m.mutated_at
    event_id ← new_id_or_fail Entity.event m.event_entropy
    append marshal (operator_event action req res event_id) m.enqueued_at
    audit_id ← new_id_or_fail Entity.audit_event m.audit_entropy
    audit (operator_audit action req res audit_id m.audited_at)
    return res

  -- The state, the answer, and the outcome that the observer is told.
  unfoldable pub mutate :
      (inside : Bool)
      → Action
      → OutboxMutationRequest
      → Moment
      → Database
      → Database × Result OutboxMutationResult × Outcome
  unfolding outcome_of
  mutate inside action req m db =
      let (db', answer) = transact inside (mutate_unit action req m) db in
      (db', answer, outcome_of (error_of answer))

unfoldable pub list : ListDeadLettersRequest → Database → Result (List DeadLetterSummary)
list req db = list_dead_letters req db.outbox

unfoldable pub get : (tenant_id message_id : Text) → Database → Result DeadLetterSummary
get tenant_id message_id db = get_dead_letter tenant_id message_id db.outbox
