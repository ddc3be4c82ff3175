-- ===== src/Store/Outbox/Queue.antt =====
-- internal/store/memory/outbox.go: the queue as producers and workers see it.
use ants.Prelude.{
  suc, ◌≡◌, ◌≤◌, refl, ap, ◌∙◌, subst, true, false, some, List, [], ◌∷◌, Text, sle, Time, Duration,
  add_time, arith, length, length-take-le, take,
}
use ants.Domain.Errors.{ok}
use ants.Ports.Outbox.{OutboxLeaseRequest}
use ants.Store.Outbox.{Outbox, lease, lease_all, due_messages, find_message, fail_with_backoff}
use ants.Store.Outbox.Stored.{Message, is_due, fail_message}
use ants.Store.Outbox.Operators.{find-update}
use ants.Store.Outbox.Sound.{fail_with_backoff-ok}

fail_message-due :
    (m : Message) (d : Duration) (cause : Text) (now t : Time)
    → is_due t (fail_message m d cause now) ≡ true
    → (sle m.max_attempts m.attempts ≡ false) × (add_time now d ≤ t)
unfolding is_due fail_message
fail_message-due m d cause now t h = ground arith

-- A delivery that has failed is not tried again before its delay is over, and not at all if the
-- message has used its attempts.
pub retry_not_early :
    (id leased_by : Text) (d : Duration) (cause : Text) (now t : Time) (st st' : Outbox)
    (m m' : Message)
    → find_message id st ≡ some m
    → fail_with_backoff id leased_by d cause now st ≡ ok st'
    → find_message id st' ≡ some m'
    → is_due t m' ≡ true
    → (sle m.max_attempts m.attempts ≡ false) × (add_time now d ≤ t)
unfolding fail_message
retry_not_early id leased_by d cause now t st st' m m' here h there due =
    let (n, found, _, shape) = fail_with_backoff-ok id leased_by d cause now st {st' = st'} h in
    let now_there : find_message id st' ≡ some (fail_message n d cause now) =
      ap (find_message id) shape
      ∙ find-update id st n (fail_message n d cause now) found (kept n) in
    let is_failed : m' ≡ fail_message n d cause now = cc (there, now_there) in
    let same : n ≡ m = cc (found, here) in
    subst (λ (x : Message). (sle x.max_attempts x.attempts ≡ false) × (add_time now d ≤ t)) same
      (fail_message-due n d cause now t (subst (λ (x : Message). is_due t x ≡ true) is_failed due))
  where
    kept : (n : Message) → (fail_message n d cause now).ref ≡ n.ref
    kept n = ground arith

lease_all-length :
    (worker_id : Text) (until : Time) (due : List Message) (st : Outbox)
    → length (lease_all worker_id until due st).1 ≡ length due
unfolding lease_all
lease_all-length worker_id until [] st = refl
lease_all-length worker_id until (m ∷ due) st = ap suc (lease_all-length worker_id until due _)

pub lease-length-le :
    (req : OutboxLeaseRequest) (now : Time) (st : Outbox) → length (lease req now st).1 ≤ req.limit
unfolding lease
lease-length-le req now st = omega (
  arith,
  lease_all-length req.worker_id (add_time now req.lease_for) (take req.limit (due_messages now st))
      st,
  length-take-le req.limit (due_messages now st),
)
