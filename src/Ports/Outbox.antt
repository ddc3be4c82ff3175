-- ===== src/Ports/Outbox.antt =====
-- internal/ports/ports.go, outboxops.go and outboxretention.go: requests about outbox messages.
use ants.Prelude.{
  ℕ, Bool, true, false, not, ◌&&◌, ◌||◌, ◌==◌, Option, Text, is_empty, is_alnum, length, all, ltb,
  Int64, slt, is_neg, Time, Duration,
}
use ants.Domain.Errors.{Result, ok, err, ◌>>◌, refuse_if, invalidf}
use ants.Domain.Ids.{Entity, parse_id}
use ants.Domain.Audit.{Actor, validate_actor}
use ants.Domain.DeliveryStatus.{DeliveryStatus}
use ants.Correlation.{valid}

-- A message as publishers and the dispatcher see it.
pub record OutboxMessage : Type 0 where
  pub id : Text
  pub dedup_key : Text
  pub tenant_id : Text
  pub envelope : Text
  pub attempts : Int64
  pub max_attempts : Int64

pub record OutboxLeaseRequest : Type 0 where
  pub worker_id : Text
  pub lease_for : Duration
  pub limit : Int64

pub record OutboxStats : Type 0 where
  pub pending : Int64
  pub leased : Int64
  pub delivered : Int64
  pub dead : Int64
  pub discarded : Int64

abbrev pub max_dead_letter_page_size : ℕ
max_dead_letter_page_size = 200

abbrev pub max_operator_free_text : ℕ
max_operator_free_text = 512

abbrev pub max_message_id_len : ℕ
max_message_id_len = 128

pub record DeadLetterSummary : Type 0 where
  pub id : Text
  pub dedup_key : Text
  pub tenant_id : Text
  pub status : DeliveryStatus
  pub attempts : Int64
  pub max_attempts : Int64
  pub generation : Int64
  pub cause : Text
  pub created_at : Time
  pub dead_at : Option Time
  pub discarded_at : Option Time

pub record ListDeadLettersRequest : Type 0 where
  pub tenant_id : Text
  pub after_created_at : Time
  pub after_id : Text
  pub limit : Int64

-- The code of the refusal is the caller's own.
abbrev parses : Result Text → Bool
parses (ok v) = true
parses (err e) = false

unfoldable pub validate_tenant_id : Text → Result (Unit {0})
validate_tenant_id id = refuse_if (not (parses (parse_id Entity.tenant id))) (invalidf "tenant_id")

unfoldable pub validate_message_id : Text → Result (Unit {0})
validate_message_id id = do
  refuse_if (is_empty id) (invalidf "outbox_message_id")
  refuse_if (ltb max_message_id_len (length id)) (invalidf "outbox_message_id")
  refuse_if (not (all (λ c. is_alnum c || c == b'_') id)) (invalidf "outbox_message_id")

unfoldable pub validate_list : ListDeadLettersRequest → Result (Unit {0})
unfolding validate_tenant_id
validate_list r = do
  validate_tenant_id r.tenant_id
  refuse_if (slt r.limit 1 || slt max_dead_letter_page_size r.limit) (invalidf "outbox_page_limit")

pub record OutboxMutationRequest : Type 0 where
  pub tenant_id : Text
  pub message_id : Text
  pub expected_generation : Int64
  pub actor : Actor
  pub reason : Text
  pub trace_id : Text

unfoldable pub validate_mutation : OutboxMutationRequest → Result (Unit {0})
unfolding validate_tenant_id validate_message_id validate_actor
validate_mutation r = do
  validate_tenant_id r.tenant_id
  validate_message_id r.message_id
  refuse_if (slt r.expected_generation 1) (invalidf "outbox_generation")
  validate_actor r.actor
  refuse_if (ltb max_operator_free_text (length r.reason)) (invalidf "outbox_reason")
  refuse_if (not (is_empty r.trace_id) && not (valid r.trace_id)) (invalidf "outbox_trace_id")

pub data Action : Type 0 where
  requeue discard : Action

pub record OutboxMutationResult : Type 0 where
  pub message_id : Text
  pub action : Action
  pub attempts_before : Int64
  pub generation : Int64

abbrev pub max_retention_sweep_batch : ℕ
max_retention_sweep_batch = 1000

pub record RetentionSweepRequest : Type 0 where
  pub delivered_older_than : Duration
  pub discarded_older_than : Duration
  pub limit : Int64
  pub dry_run : Bool

unfoldable pub validate_sweep : RetentionSweepRequest → Result (Unit {0})
validate_sweep r = do
  refuse_if (is_neg r.delivered_older_than || is_neg r.discarded_older_than)
      (invalidf "outbox_retention_horizon")
  refuse_if (slt r.limit 1 || slt max_retention_sweep_batch r.limit)
      (invalidf "outbox_retention_batch")

pub record RetentionSweepResult : Type 0 where
  pub cutoff : Time
  pub deleted_delivered : Int64
  pub deleted_discarded : Int64
