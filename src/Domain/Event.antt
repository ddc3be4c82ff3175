-- ===== src/Domain/Event.antt =====
-- internal/domain/event.go: the envelope of what happened; its `Data` is `payload`.
use ants.Prelude.{Text, Int64, Time}
use ants.Domain.Audit.{Actor, Metadata}

pub data EventType : Type 0 where
  tenant_created project_created thread_created thread_status_changed spec_recorded : EventType
  run_started run_status_changed task_created task_status_changed workspace_committed : EventType
  artifact_stored policy_evaluated budget_exhausted : EventType
  outbox_dead_letter_requeued outbox_dead_letter_discarded : EventType
  other : Text → EventType

pub record Event : Type 0 where
  pub id : Text
  pub kind : EventType
  pub occurred_at : Time
  pub tenant_id : Text
  pub aggregate_type : Text
  pub aggregate_id : Text
  pub aggregate_version : Int64
  pub actor : Actor
  pub trace_id : Text
  pub seq : Int64
  pub run_id : Text
  pub payload : Metadata
