-- ===== src/Dispatch/Rounds.antt =====
-- internal/outbox/dispatcher.go: a round as calls of the outbox.
use ants.Prelude.{
  length-append, ℕ, ◌+◌, ◌≤◌, ◌≡◌, refl, Bool, ◌&&◌, Option, none, some, List, [], ◌∷◌, ap, ◌∙◌,
  inl, inr, Bool-cases, Text, length, Time, arith, if◌then◌else◌,
}
use ants.Domain.Errors.{Result, ok, err}
use ants.Ports.Outbox.{OutboxMessage, OutboxLeaseRequest}
use ants.Store.Outbox.{Outbox, lease}
use ants.Store.Outbox.Queue.{lease-length-le}
use ants.Store.Outbox.History.{Call, or_stay, step, history}
use ants.Dispatch.{
  Config, Event, settle, settle_all, dispatch_once, settled, backoff_for, safe_err, is_failure,
}

-- The call of the outbox that settles a message.
abbrev settling : Config → (worker_id : Text) → OutboxMessage → Option Text → Call
settling cfg worker_id msg none = Call.deliver_one msg.id worker_id
settling cfg worker_id msg (some cause) =
    Call.fail_one msg.id worker_id (backoff_for cfg.retry_backoff_base msg.attempts)
      (safe_err cause)

settled-lem :
    (e : Event) (st : Outbox) (r : Result Outbox)
    → ((settled e st r).0 ≡ or_stay st r) × (length (settled e st r).1 ≤ 1)
settled-lem e st (ok st') = (refl, omega arith)
settled-lem e st (err x) = (refl, omega arith)

settle-lem :
    (cfg : Config) (worker_id : Text) (now : Time) (msg : OutboxMessage) (answer : Option Text)
    (st : Outbox)
    → ((settle cfg worker_id now msg answer st).0 ≡ step now (settling cfg worker_id msg answer) st)
      × (length (settle cfg worker_id now msg answer st).1 ≤ 1)
unfolding settle step
settle-lem cfg worker_id now msg none st = settled-lem _ st _
settle-lem cfg worker_id now msg (some cause) st = settled-lem _ st _

module _ (cfg : Config) (worker_id : Text) (sink : ℕ → OutboxMessage → Option Text)
    (cancelled : ℕ → Bool) (clock : ℕ → Time) where
  -- The calls that settle the messages up to a shutdown, by the answers of the sink.
  pub calls_of : ℕ → List OutboxMessage → List (Time × Call)
  calls_of i [] = []
  calls_of i (msg ∷ msgs) =
      let rest = calls_of (i + 1) msgs in
      if is_failure (sink i msg) && cancelled i
      then []
      else (clock i, settling cfg worker_id msg (sink i msg)) ∷ rest

  settle_all-lem :
      (i : ℕ) (msgs : List OutboxMessage) (st : Outbox)
      → let r = settle_all cfg worker_id sink cancelled clock i msgs st in
        (r.store ≡ history (calls_of i msgs) st) × (length r.events ≤ length msgs)
  unfolding settle_all calls_of history
  settle_all-lem i [] st = (refl, omega arith)
  settle_all-lem i (msg ∷ msgs) st =
      let (moved, few) = settle-lem cfg worker_id (clock i) msg (sink i msg) st in
      let st' : Outbox = (settle cfg worker_id (clock i) msg (sink i msg) st).0 in
      let (rest, fewer) = settle_all-lem (i + 1) msgs st' in
      elim (Bool-cases (is_failure (sink i msg) && cancelled i)) [
        | inl e ↦ rw e (refl, omega arith)
        | inr e ↦ rw e (
          rest ∙ ap (history (calls_of (i + 1) msgs)) moved,
          omega (
            arith,
            few,
            fewer,
            length-append (settle cfg worker_id (clock i) msg (sink i msg) st).1
                (settle_all cfg worker_id sink cancelled clock (i + 1) msgs st').events,
          ),
        )
      ]

  -- A round of the dispatcher is a history of the outbox: one lease, then for each message that it
  -- took, up to a shutdown, the call that settles it. It takes no more messages than the batch, and
  -- reports no more outcomes than it took messages.
  pub dispatch_once-history :
      (now : Time) (st : Outbox)
      → let (r, leased) = dispatch_once cfg worker_id sink cancelled clock now st in
        let req : OutboxLeaseRequest = record {
          worker_id = worker_id;
          lease_for = cfg.lease_for;
          limit = cfg.batch_size;
        } in
        (r.store ≡ history ((now, Call.lease_some req) ∷ calls_of 0 (lease req now st).1) st)
        × (leased ≤ cfg.batch_size)
        × (length r.events ≤ leased)
  unfolding dispatch_once history step
  dispatch_once-history now st =
      let req : OutboxLeaseRequest = record {
        worker_id = worker_id;
        lease_for = cfg.lease_for;
        limit = cfg.batch_size;
      } in
      let (same, few) = settle_all-lem 0 (lease req now st).1 (lease req now st).0 in
      (same, lease-length-le req now st, few)
