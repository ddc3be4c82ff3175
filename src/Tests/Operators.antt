-- ===== src/Tests/Operators.antt =====
-- An operator's decision at concrete inputs.
use ants.Store.Outbox.{deref, find_message, find_own, requeue_dead_letter}
use ants.Prelude.{◌≡◌, refl, false, none, some, [], ◌∷◌, bytes, text_eq}
use ants.Domain.Errors.{Result}
use ants.Domain.Ids.{parse_id, new_id}
use ants.Store.Assoc.{lookup}
use ants.Store.Database.{Database}
use ants.Store.Outbox.Stored.{classify, Message}
use ants.Domain.DeliveryStatus.{DeliveryStatus}
use ants.Ports.Outbox.{validate_mutation, OutboxMutationRequest, OutboxMutationResult, requeue}
use ants.Operators as Ops
use ants.Operators.{mutate}
use ants.Operators.Trail.{mutate-HasTrail, Landed}
use ants.Store.Transactor.{transact}
use ants.Store.Events.{append}
use ants.Tests.Fixtures.{tenant, zeros}
use ants.Tests.World.{new_world, marshal, operator}

-- A dead letter, and an operator who requeues it.
abbrev dead : Message
dead = record {
  ref = 0;
  id = bytes "obx_1";
  dedup_key = bytes "evt-1";
  tenant_id = tenant;
  envelope = bytes "payload";
  status = DeliveryStatus.dead;
  attempts = 5;
  max_attempts = 5;
  available_at = 0;
  leased_by = [];
  lease_until = none;
  last_error = bytes "boom";
  created_at = 0;
  delivered_at = none;
  generation = 1;
  dead_at = some 3;
  discarded_at = none;
}

abbrev dead_world : Database
dead_world = record new_world {
  outbox = record {
    messages = dead ∷ [];
    by_id = (bytes "obx_1", 0) ∷ [];
    by_dedup = (bytes "evt-1", 0) ∷ [];
    next_ref = 1;
  };
}

abbrev request : OutboxMutationRequest
request = record {
  tenant_id = tenant;
  message_id = bytes "obx_1";
  expected_generation = 1;
  actor = operator;
  reason = [];
  trace_id = [];
}

abbrev operation : Ops.Moment
operation = record {
  mutated_at = 7;
  enqueued_at = 7;
  audited_at = 8;
  event_entropy = some zeros;
  audit_entropy = some zeros;
}

abbrev requeued : Database × Result OutboxMutationResult × Ops.Outcome
requeued = mutate marshal false requeue request operation dead_world

mutate-HasTrail_example :
    Landed marshal requeue request operation dead_world requeued.0 requeued.1 requeued.2
mutate-HasTrail_example =
    mutate-HasTrail marshal requeue request operation dead_world requeued.0 requeued.1 requeued.2
      refl

accepted : requeued.2 ≡ Ops.succeeded
unfolding mutate transact Ops.mutate_unit requeue_dead_letter validate_mutation parse_id text_eq
    find_own find_message lookup deref classify new_id append
accepted = refl
