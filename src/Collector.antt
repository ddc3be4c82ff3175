-- ===== src/Collector.antt =====
-- internal/outboxgc/service.go: bounded rounds of garbage collection over the outbox. Logging is left
-- out; the observer's calls are the events of a round.
pub mod Laws
pub mod Inactive
use ants.Prelude.{
  ℕ, Bool, true, false, not, ◌||◌, List, [], ◌∷◌, ◌++◌, Int64, slt, is_pos, is_neg, Time, Duration,
  if◌then◌else◌,
}
use ants.Domain.Errors.{Result, ok, err, ◌>>=◌, ◌>>◌}
use ants.Ports.Outbox.{RetentionSweepRequest, RetentionSweepResult, max_retention_sweep_batch}
use ants.Store.Outbox.{Outbox}
use ants.Store.Outbox.Retention.{sweep_retention}

pub record Config : Type 0 where
  pub delivered_after : Duration
  pub discarded_after : Duration
  pub batch_size : Int64
  pub interval : Duration

-- 1 s is 1000000000 ns. The errors of `Validate` are texts: here, whether it accepts.
unfoldable pub is_valid_config : Config → Bool
is_valid_config c = not (
    (is_neg c.delivered_after || is_neg c.discarded_after)
    || ((slt c.batch_size 1 || slt max_retention_sweep_batch c.batch_size)
        || slt c.interval 1000000000))

unfoldable pub is_active : Config → Bool
is_active c = is_pos c.delivered_after || is_pos c.discarded_after

unfoldable pub request : Config → (dry_run : Bool) → RetentionSweepRequest
request c dry_run = record {
  delivered_older_than = c.delivered_after;
  discarded_older_than = c.discarded_after;
  limit = c.batch_size;
  dry_run = dry_run;
}

pub data Event : Type 0 where
  deleted_delivered deleted_discarded : Int64 → Event
  round_completed : Event

unfoldable pub preview : Config → Time → Outbox → Result (Outbox × RetentionSweepResult)
unfolding request
preview c now st = sweep_retention (request c true) now st

-- What the observer is told of a round.
abbrev pub events_of : RetentionSweepResult → List Event
events_of res =
    (if is_pos res.deleted_delivered then deleted_delivered res.deleted_delivered ∷ [] else [])
    ++ (if is_pos res.deleted_discarded then deleted_discarded res.deleted_discarded ∷ [] else [])
    ++ round_completed ∷ []

abbrev pub observed : Outbox × RetentionSweepResult → Outbox × RetentionSweepResult × List Event
observed (st, res) = (st, res, events_of res)

unfoldable pub round : Config → Time → Outbox → Result (Outbox × RetentionSweepResult × List Event)
unfolding request
round c now st = do r ← sweep_retention (request c false) now st; ok (observed r)
