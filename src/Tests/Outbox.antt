-- ===== src/Tests/Outbox.antt =====
-- The outbox, its dispatcher and its collector at concrete inputs.
use ants.Domain.Ids.{parse_id}
use ants.Prelude.{
  Time, length, keep, All, ◌+◌, IsIn, List, sort, ◌*◌, ◌-◌, ◌≤◌, ◌≡◌, ◌≢◌, ◌⊎◌, refl, false, none,
  some, [], ◌∷◌, bytes, arith, text_eq, sle, add_time,
}
use Prim.Native.Nat.{min}
use ants.Domain.Errors.{ok}
use ants.Domain.DeliveryStatus.{DeliveryStatus}
use ants.Domain.Audit.{PrincipalKind}
use ants.Ports.Outbox.{
  validate_mutation, validate_sweep, OutboxMutationRequest, OutboxMutationResult, requeue, discard,
  RetentionSweepRequest, RetentionSweepResult,
}
use ants.Store.Assoc.{lookup, put, remove}
use ants.Store.Outbox.{
  find_own, write, deref, find_held, Outbox, publish, fail_with_backoff, find_message,
  requeue_dead_letter,
}
use ants.Store.Outbox.Stored.{
  classify, is_due, is_held_by, Message, new_message, fail_message, lease_message, apply_requeue,
  deliver_message,
}
use ants.Store.Outbox.Retention.{is_victim, select_retention_victims, sweep_retention}
use ants.Store.Outbox.Sweep.{sweep_retention-safe}
use ants.Store.Outbox.Victims.{IsExpired}
use ants.Store.Outbox.Operators.{mutate}
use ants.Store.Outbox.Decisions.{IsIndexed, IsStale, mutation_once}
use ants.Store.Outbox.Queue.{retry_not_early}
use ants.Store.Outbox.Kept.{IsOf}
use ants.Store.Outbox.Published.{publish_once}
use ants.Store.Outbox.Sound.{AllSound}
use ants.Store.Outbox.History.{Call, history, history-AllSound, or_stay_with}
use ants.Dispatch.{Config, backoff_for, max_backoff, dispatch_once}
use ants.Dispatch.Backoff.{backoff_for-le, backoff_for-eq, pow2}
use ants.Dispatch.Rounds.{dispatch_once-history}
use ants.Collector.{Event, round_completed, is_active, preview, round}
use ants.Collector.Laws.{preview-round, result_of, outcome_of}
use ants.Tests.Fixtures.{message, empty_outbox, worker, tenant, second}

abbrev outbox_of : Message → Outbox
outbox_of m = record {
  messages = m ∷ [];
  by_id = (message.id, 0) ∷ [];
  by_dedup = (message.dedup_key, 0) ∷ [];
  next_ref = 1;
}

abbrev queued : Message
queued = new_message 0 message 0

abbrev held : Message
held = lease_message queued worker (10 * second)

abbrev dead : Message
dead = record held {
  status = DeliveryStatus.dead;
  lease_until = none;
  leased_by = [];
  generation = 1;
  attempts = 2;
  dead_at = some second;
}

abbrev done : Message
done = deliver_message held second

first_publish : publish message 0 empty_outbox ≡ ok (outbox_of queued)
unfolding publish lookup put
first_publish = refl

-- A worker takes the message, and the producer publishes it again.
abbrev taken_again : List (Time × Call)
taken_again =
    (second, Call.lease_some (record { worker_id = worker; lease_for = second; limit = 5 }))
    ∷ (2 * second, Call.publish_one message)
    ∷ []

publish_once_example :
    (length (
        keep
          (λ (m : Message). text_eq m.dedup_key message.dedup_key)
          (history taken_again (outbox_of queued)).messages)
      ≡ 1)
    × All
        (λ (m : Message). (m.dedup_key ≢ message.dedup_key) ⊎ IsOf message m)
        (history taken_again (outbox_of queued)).messages
unfolding lookup
publish_once_example =
    publish_once message 0 empty_outbox (outbox_of queued) taken_again (refl, tt) first_publish
      (tt, (tt, tt))

abbrev failed : Message
failed = fail_message held second (bytes "refused") second

failure :
    fail_with_backoff message.id worker second (bytes "refused") second (outbox_of held)
    ≡ ok (outbox_of failed)
unfolding fail_with_backoff lookup find_held find_message text_eq deref lease_message new_message
    is_held_by write fail_message
failure = refl

retry_not_early_example :
    (sle held.max_attempts held.attempts ≡ false) × (add_time second second ≤ 2 * second)
unfolding find_message lookup text_eq deref lease_message new_message fail_message is_due
retry_not_early_example =
    retry_not_early message.id worker second (bytes "refused") second (2 * second) (outbox_of held)
      (outbox_of failed) held failed refl failure refl refl

abbrev mutation : OutboxMutationRequest
mutation = record {
  tenant_id = tenant;
  message_id = message.id;
  expected_generation = 1;
  actor = record { kind = PrincipalKind.human; id = bytes "op" };
  reason = bytes "again";
  trace_id = [];
}

abbrev requeued : Outbox × OutboxMutationResult
requeued = (
  outbox_of (apply_requeue dead (5 * second)),
  record { message_id = message.id; action = requeue; attempts_before = 2; generation = 2 },
)

first_mutation : mutate requeue mutation (5 * second) (outbox_of dead) ≡ ok requeued
unfolding mutate requeue_dead_letter lookup validate_mutation parse_id text_eq find_own find_message
    deref lease_message new_message classify write apply_requeue
first_mutation = refl

outbox_of-IsIndexed : IsIndexed (outbox_of dead)
unfolding lookup text_eq
outbox_of-IsIndexed = record { distinct = (tt, tt); issued = λ id r h. ground (arith, h) }

-- The requeued message fails and dies again before the second operator asks.
abbrev dies_again : List (Time × Call)
dies_again =
    (6 * second, Call.lease_some (record { worker_id = worker; lease_for = second; limit = 5 }))
    ∷ (7 * second, Call.fail_one message.id worker second (bytes "refused"))
    ∷ []

valid : validate_mutation mutation ≡ ok tt
unfolding validate_mutation parse_id text_eq
valid = refl

mutation_once_example :
    IsStale (mutate discard mutation (8 * second) (history dies_again requeued.0))
mutation_once_example =
    mutation_once requeue discard mutation mutation (5 * second) (8 * second) (outbox_of dead)
      requeued dies_again outbox_of-IsIndexed refl refl (omega arith) valid (tt, (tt, tt))
      first_mutation

history-AllSound_example : AllSound (
    history
      ((0, Call.publish_one message) ∷ (second, Call.operate discard mutation) ∷ [])
      empty_outbox)
history-AllSound_example =
    history-AllSound ((0, Call.publish_one message) ∷ (second, Call.operate discard mutation) ∷ [])
      empty_outbox tt

abbrev sweep_request : RetentionSweepRequest
sweep_request = record {
  delivered_older_than = 10 * second;
  discarded_older_than = 0;
  limit = 10;
  dry_run = false;
}

-- The one row is old enough, and goes.
abbrev swept : Outbox × RetentionSweepResult
swept = (
  record { messages = []; by_id = []; by_dedup = []; next_ref = 1 },
  record { cutoff = 50 * second; deleted_delivered = 1; deleted_discarded = 0 },
)

sweep_retention-safe_example :
    (1 ≤ 0 + (1 + 0))
    × (1 + 0 ≤ 10)
    × All
        (λ m. IsIn m swept.0.messages ⊎ IsExpired sweep_request (50 * second) m)
        (outbox_of done).messages
    × ((false ≡ false) ⊎ (swept.0 ≡ outbox_of done))
unfolding sweep_retention validate_sweep select_retention_victims sort is_victim deliver_message
    lease_message remove new_message text_eq
sweep_retention-safe_example =
    sweep_retention-safe sweep_request (50 * second) (outbox_of done) swept (tt, tt) refl

backoff_for-le_example : backoff_for (3600 * second) 9 ≤ max_backoff
backoff_for-le_example = backoff_for-le (3600 * second) 9 (omega arith) (omega arith)

backoff_for-eq_example : backoff_for second 4 ≡ min (second * pow2 (min (4 - 1) 16)) max_backoff
backoff_for-eq_example = backoff_for-eq second 4 refl (omega arith) (omega arith)

abbrev config : Config
config = record {
  batch_size = 10;
  interval = second;
  lease_for = 30 * second;
  max_attempts = 2;
  retry_backoff_base = second;
}

dispatch_once-history_example :
    (dispatch_once config worker
      (λ i m. none)
      (λ i. false)
      (λ i. second)
      second
      (outbox_of queued)).1
    ≤ 10
dispatch_once-history_example =
    (dispatch_once-history config worker (λ i m. none) (λ i. false) (λ i. second) second
      (outbox_of queued)).1

abbrev retention : ants.Collector.Config
retention = record {
  delivered_after = 10 * second;
  discarded_after = 0;
  batch_size = 10;
  interval = second;
}

preview-round_example :
    (result_of (preview retention (50 * second) (outbox_of done))
      ≡ outcome_of (round retention (50 * second) (outbox_of done)))
    × (or_stay_with (outbox_of done) (preview retention (50 * second) (outbox_of done))
        ≡ outbox_of done)
preview-round_example = preview-round retention (50 * second) (outbox_of done)

abbrev inert : ants.Collector.Config
inert = record { delivered_after = 0; discarded_after = 0; batch_size = 10; interval = second }

abbrev idle_round : Outbox × RetentionSweepResult × List Event
idle_round = (
  outbox_of done,
  record { cutoff = 50 * second; deleted_delivered = 0; deleted_discarded = 0 },
  round_completed ∷ [],
)

idle : round inert (50 * second) (outbox_of done) ≡ ok idle_round
unfolding round sweep_retention validate_sweep
idle = refl
