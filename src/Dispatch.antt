-- ===== src/Dispatch.antt =====
-- internal/outbox/dispatcher.go: the dispatcher that drains the outbox. The sink is a parameter: what
-- it answers to the i-th message of a round, `none` for an acknowledgement or the text of its error.
-- So are the instants of the store's clock and whether the context is cancelled when the i-th answer
-- is in. Logging is left out; the observer's outcomes are the events of a round.
pub mod Backoff
pub mod Rounds
use ants.Prelude.{
  ℕ, zero, suc, ◌+◌, ◌-◌, ◌%◌, Bool, true, false, not, ◌&&◌, ◌||◌, Option, none, some, List, [],
  ◌∷◌, ◌++◌, Text, take, length, Int64, slt, sle, is_pos, is_neg, shl_one, word_mod, Time, Duration,
  if◌then◌else◌,
}
use ants.Domain.Errors.{Result, ok, err}
use ants.Ports.Outbox.{OutboxMessage, OutboxLeaseRequest}
use ants.Store.Outbox.{Outbox, lease, mark_delivered, fail_with_backoff}

pub record Config : Type 0 where
  pub batch_size : Int64
  pub interval : Duration
  pub lease_for : Duration
  pub max_attempts : Int64
  pub retry_backoff_base : Duration

-- 10 ms and 1 s, in nanoseconds. The errors of `Validate` are texts: here, whether it accepts.
unfoldable pub is_valid_config : Config → Bool
is_valid_config c = not (
    (slt c.batch_size 1 || slt 1000 c.batch_size)
    || (slt c.interval 10000000
        || (slt c.lease_for 1000000000
            || ((slt c.max_attempts 1 || slt 100 c.max_attempts) || is_neg c.retry_backoff_base))))

-- 24 h.
abbrev pub max_backoff : Duration
max_backoff = 86400000000000

abbrev pub min_int : Int64 → Int64 → Int64
min_int a b = if slt a b then a else b

-- The loop of `backoffFor`, its last test included.
unfoldable pub double : (rounds : ℕ) → Duration → Duration
double zero base = if slt max_backoff base then max_backoff else base
double (suc n) base =
    let rest = double n (shl_one base) in if sle max_backoff base then max_backoff else rest

-- `attempts - 1` wraps; a range over a negative number is empty.
unfoldable pub backoff_for : (base : Duration) → (attempts : Int64) → Duration
unfolding double
backoff_for base attempts =
    let rounds = min_int ((attempts + (word_mod - 1)) % word_mod) 16 in
    if sle base 0 then 0 else double (if is_neg rounds then 0 else rounds) base

-- `safeErr`: the text of an error, cut.
abbrev pub safe_err : Text → Text
safe_err = take 512

pub data Event : Type 0 where
  delivered retry_scheduled dead_lettered : Event

abbrev pub settled : Event → Outbox → Result Outbox → Outbox × List Event
settled e st (ok st') = (st', e ∷ [])
settled e st (err x) = (st, [])

-- One message of a round, after the sink's answer.
unfoldable pub settle :
    Config → (worker_id : Text) → Time → OutboxMessage → Option Text → Outbox → Outbox × List Event
settle cfg worker_id now msg none st = settled delivered st (mark_delivered msg.id worker_id now st)
settle cfg worker_id now msg (some cause) st =
    settled (if sle msg.max_attempts msg.attempts then dead_lettered else retry_scheduled) st (
      fail_with_backoff msg.id worker_id (backoff_for cfg.retry_backoff_base msg.attempts)
        (safe_err cause) now st)

abbrev pub is_failure : Option Text → Bool
is_failure none = false
is_failure (some cause) = true

-- What a round leaves: the store, the observer's events, and whether it ended for a shutdown.
pub record Round : Type 0 where
  pub store : Outbox
  pub events : List Event
  pub stopped : Bool

module _ (cfg : Config) (worker_id : Text) (sink : ℕ → OutboxMessage → Option Text)
    (cancelled : ℕ → Bool) (clock : ℕ → Time) where
  unfoldable pub settle_all : ℕ → List OutboxMessage → Outbox → Round
  unfolding settle
  settle_all i [] st = record { store = st; events = []; stopped = false }
  settle_all i (msg ∷ msgs) st =
      let answer = sink i msg in
      let (st', es) = settle cfg worker_id (clock i) msg answer st in
      let rest = settle_all (i + 1) msgs st' in
      if is_failure answer && cancelled i
      then (record { store = st; events = []; stopped = true })
      else (record { store = rest.store; events = es ++ rest.events; stopped = rest.stopped })

  -- `DispatchOnce` at the instant `now`: the round, and how many messages were leased.
  unfoldable pub dispatch_once : Time → Outbox → Round × ℕ
  unfolding settle_all
  dispatch_once now st =
      let req : OutboxLeaseRequest = record {
        worker_id = worker_id;
        lease_for = cfg.lease_for;
        limit = cfg.batch_size;
      } in
      let (st', leased) = lease req now st in (settle_all 0 leased st', length leased)
