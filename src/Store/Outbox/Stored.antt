-- ===== src/Store/Outbox/Stored.antt =====
-- internal/store/memory/outbox.go: one stored message, and what the operations do to it.
use ants.Prelude.{
  ℕ, Bool, false, not, ◌&&◌, ◌||◌, ◌==◌, Option, none, some, [], Text, text_eq, text_lt, is_empty,
  take, ltb, Int64, inc, sle, Time, Duration, add_time, after, if◌then◌else◌,
}
use ants.Domain.Errors.{Result, ok, err, bad_transition, stale_version}
use ants.Domain.DeliveryStatus.{DeliveryStatus, eq}
use ants.Ports.Outbox.{OutboxMessage, DeadLetterSummary}

pub record Message : Type 0 where
  pub ref : ℕ
  pub id : Text
  pub dedup_key : Text
  pub tenant_id : Text
  pub envelope : Text
  pub status : DeliveryStatus
  pub attempts : Int64
  pub max_attempts : Int64
  pub available_at : Time
  pub leased_by : Text
  pub lease_until : Option Time
  pub last_error : Text
  pub created_at : Time
  pub delivered_at : Option Time
  pub generation : Int64
  pub dead_at : Option Time
  pub discarded_at : Option Time

unfoldable pub new_message : ℕ → OutboxMessage → Time → Message
new_message ref msg now = record {
  ref = ref;
  id = msg.id;
  dedup_key = msg.dedup_key;
  tenant_id = msg.tenant_id;
  envelope = msg.envelope;
  status = DeliveryStatus.pending;
  attempts = 0;
  max_attempts = msg.max_attempts;
  available_at = now;
  leased_by = [];
  lease_until = none;
  last_error = [];
  created_at = now;
  delivered_at = none;
  generation = 0;
  dead_at = none;
  discarded_at = none;
}

-- `t != nil && !t.After(now)`.
abbrev pub has_passed : Option Time → Time → Bool
has_passed none now = false
has_passed (some t) now = not (after t now)

unfoldable pub is_due : Time → Message → Bool
is_due now m =
    (eq m.status DeliveryStatus.pending && not (after m.available_at now))
    || (eq m.status DeliveryStatus.leased && has_passed m.lease_until now)

unfoldable pub lease_message : Message → (worker_id : Text) → Time → Message
lease_message m worker_id until = record m {
  status = DeliveryStatus.leased;
  leased_by = worker_id;
  lease_until = some until;
  attempts = inc m.attempts;
}

unfoldable pub is_held_by : Message → Text → Bool
is_held_by m leased_by = eq m.status DeliveryStatus.leased && text_eq m.leased_by leased_by

unfoldable pub deliver_message : Message → Time → Message
deliver_message m now = record m {
  status = DeliveryStatus.delivered;
  delivered_at = some now;
  lease_until = none;
}

abbrev pub max_error_len : ℕ
max_error_len = 512

unfoldable pub fail_message : Message → Duration → (cause : Text) → Time → Message
fail_message m retry_in cause now =
    let moved =
      if sle m.max_attempts m.attempts
      then (record m {
        status = DeliveryStatus.dead;
        generation = inc m.generation;
        dead_at = some now;
      })
      else (record m { status = DeliveryStatus.pending; available_at = add_time now retry_in }) in
    record moved { lease_until = none; leased_by = []; last_error = take max_error_len cause }

-- `classifyOperatorMutation`: why an operator may not act on the message.
unfoldable pub classify : Message → Int64 → Result (Unit {0})
classify m expected =
    if m.generation == 0
    then err bad_transition
    else if not (m.generation == expected)
    then err stale_version
    else if not (eq m.status DeliveryStatus.dead)
    then err bad_transition
    else ok tt

unfoldable pub apply_requeue : Message → Time → Message
apply_requeue m now = record m {
  status = DeliveryStatus.pending;
  attempts = 0;
  available_at = now;
  lease_until = none;
  leased_by = [];
  generation = inc m.generation;
  dead_at = none;
}

unfoldable pub apply_discard : Message → Time → Message
apply_discard m now = record m {
  status = DeliveryStatus.discarded;
  lease_until = none;
  leased_by = [];
  generation = inc m.generation;
  discarded_at = some now;
}

abbrev pub is_dead : DeliveryStatus → Bool
is_dead s = eq s DeliveryStatus.dead

-- Dead or discarded: the messages that operators see.
abbrev pub is_operable : DeliveryStatus → Bool
is_operable s = eq s DeliveryStatus.dead || eq s DeliveryStatus.discarded

-- The row stands at or before the cursor.
unfoldable pub after_keyset : Time → Text → Time → Text → Bool
after_keyset created_at id after_at after_id =
    if is_empty after_id && after_at == 0
    then false
    else if created_at == after_at
    then not (text_lt after_id id)
    else ltb created_at after_at

unfoldable pub dead_before : Message → Message → Bool
dead_before m n =
    if not (m.created_at == n.created_at) then ltb m.created_at n.created_at else text_lt m.id n.id

unfoldable pub summary : Message → DeadLetterSummary
summary m = record {
  id = m.id;
  dedup_key = m.dedup_key;
  tenant_id = m.tenant_id;
  status = m.status;
  attempts = m.attempts;
  max_attempts = m.max_attempts;
  generation = m.generation;
  cause = m.last_error;
  created_at = m.created_at;
  dead_at = m.dead_at;
  discarded_at = m.discarded_at;
}
