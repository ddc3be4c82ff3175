-- ===== src/Store/Outbox/History.antt =====
-- Histories of the outbox: calls at instants, in the order in which they take the lock.
use ants.Prelude.{◌≡◌, refl, sym, subst, List, [], ◌∷◌, Text, Time, Duration}
use ants.Domain.Errors.{Result, ok, err}
use ants.Ports.Outbox.{
  OutboxMessage, OutboxLeaseRequest, OutboxMutationRequest, RetentionSweepRequest, Action,
}
use ants.Store.Outbox.{Outbox, publish, lease, mark_delivered, fail_with_backoff, update}
use ants.Store.Outbox.Stored.{Message}
use ants.Store.Outbox.Retention.{sweep_retention}
use ants.Store.Outbox.Operators.{mutate, mutate-ok}
use ants.Store.Outbox.Sound.{
  IsSound, AllSound, All-found, All-write, mark_delivered-ok, fail_with_backoff-ok,
  publish-AllSound, lease-AllSound, sweep-AllSound, deliver-IsSound, fail-IsSound, apply-IsSound,
}

pub data Call : Type 0 where
  publish_one : OutboxMessage → Call
  lease_some : OutboxLeaseRequest → Call
  deliver_one : (id leased_by : Text) → Call
  fail_one : (id leased_by : Text) → Duration → (cause : Text) → Call
  operate : Action → OutboxMutationRequest → Call
  sweep : RetentionSweepRequest → Call

-- A call that fails leaves the store as it was.
abbrev pub or_stay : Outbox → Result Outbox → Outbox
or_stay st (ok st') = st'
or_stay st (err e) = st

abbrev pub or_stay_with {ℓ} : {A : Type ℓ} → Outbox → Result (Outbox × A) → Outbox
or_stay_with st (ok (st', a)) = st'
or_stay_with st (err e) = st

unfoldable pub step : Time → Call → Outbox → Outbox
step now (publish_one msg) st = or_stay st (publish msg now st)
step now (lease_some req) st = (lease req now st).0
step now (deliver_one id leased_by) st = or_stay st (mark_delivered id leased_by now st)
step now (fail_one id leased_by d cause) st =
    or_stay st (fail_with_backoff id leased_by d cause now st)
step now (operate a req) st = or_stay_with st (mutate a req now st)
step now (sweep req) st = or_stay_with st (sweep_retention req now st)

unfoldable pub history : List (Time × Call) → Outbox → Outbox
history [] st = st
history ((now, call) ∷ calls) st = history calls (step now call st)

update-AllSound :
    (st st' : Outbox) (m' : Message) → AllSound st → IsSound m' → st' ≡ update m' st → AllSound st'
update-AllSound st st' m' w p e =
    subst AllSound (sym e) (All-write IsSound m'.ref m' st.messages p w)

or_stay-AllSound :
    (st : Outbox) (r : Result Outbox)
    → AllSound st
    → ((st' : Outbox) → r ≡ ok st' → AllSound st')
    → AllSound (or_stay st r)
or_stay-AllSound st (ok st') w f = f st' refl
or_stay-AllSound st (err e) w f = w

or_stay_with-AllSound {ℓ} :
    {A : Type ℓ} (st : Outbox) (r : Result (Outbox × A))
    → AllSound st
    → ((p : Outbox × A) → r ≡ ok p → AllSound p.0)
    → AllSound (or_stay_with st r)
or_stay_with-AllSound st (ok p) w f = f p refl
or_stay_with-AllSound st (err e) w f = w

step-AllSound : (now : Time) (call : Call) (st : Outbox) → AllSound st → AllSound (step now call st)
unfolding step
step-AllSound now (publish_one msg) st w =
    or_stay-AllSound st _ w (λ st' h. publish-AllSound msg now st st' w h)
step-AllSound now (lease_some req) st w = lease-AllSound req now st w
step-AllSound now (deliver_one id leased_by) st w = or_stay-AllSound st _ w (λ st' h.
    let (m, here, held, e) = mark_delivered-ok id leased_by now st h in
    update-AllSound st st' _ w
      (deliver-IsSound m (All-found IsSound id st m w here) leased_by now held) e)
step-AllSound now (fail_one id leased_by d cause) st w = or_stay-AllSound st _ w (λ st' h.
    let (m, here, held, e) = fail_with_backoff-ok id leased_by d cause now st h in
    update-AllSound st st' _ w
      (fail-IsSound m (All-found IsSound id st m w here) leased_by d cause now held) e)
step-AllSound now (operate a req) st w = or_stay_with-AllSound st _ w (λ p h.
    let (m, here, _, dead, _, e) = mutate-ok a req now st {r = p} h in
    update-AllSound st p.0 _ w
      (apply-IsSound m (All-found IsSound req.message_id st m w here) a now dead) e)
step-AllSound now (sweep req) st w =
    or_stay_with-AllSound st _ w (λ p h. sweep-AllSound req now st p w h)

-- However the outbox is used, in every row that it holds the generation is odd just where the message
-- is dead, and a leased, delivered, dead or discarded message has the instant of that.
pub history-AllSound :
    (calls : List (Time × Call)) (st : Outbox) → AllSound st → AllSound (history calls st)
unfolding history
history-AllSound [] st w = w
history-AllSound ((now, call) ∷ calls) st w =
    history-AllSound calls (step now call st) (step-AllSound now call st w)
