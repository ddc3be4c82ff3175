-- ===== src/Store/Outbox/Sound.antt =====
-- internal/store/memory/outbox.go: the instants and the generation that go with a status.
use ants.Prelude.{
  All-append, ℕ, ◌%◌, ◌≡◌, ◌≢◌, sym, ap, ◌∙◌, subst, Bool, true, false, ◌||◌, ◌==◌, none, some,
  List, [], ◌∷◌, Text, Time, Duration, arith, Option-cases, Bool-cases, inl, inr, All, All-and,
  All-keep, All-keep_test, All-sort, All-take, ltb, add_time, if◌then◌else◌, slt,
}
use ants.Domain.Errors.{ok, refuse_if-ok, bind-ok, ok-injective}
use ants.Domain.DeliveryStatus.{DeliveryStatus}
use ants.Ports.Outbox.{
  OutboxMessage, OutboxLeaseRequest, RetentionSweepRequest, RetentionSweepResult, Action, requeue,
  discard,
}
use ants.Store.Assoc.{lookup}
use ants.Store.Outbox.{
  Outbox, deref, write, deref_opt, find_message, update, publish, has, lease, lease_all,
  due_messages, find_held, mark_delivered, fail_with_backoff,
}
use ants.Store.Outbox.Stored.{
  Message, new_message, is_due, lease_message, deliver_message, fail_message, apply_requeue,
  apply_discard, is_held_by,
}
use ants.Store.Outbox.Retention.{sweep_retention, remove_victims, all_victims}
use ants.Store.Outbox.Sweep.{sweep_retention-ok}
use ants.Store.Outbox.Operators.{apply}

-- The generation is odd just where the message is dead, and each status has its instant.
pub record IsSound (m : Message) : Type 0 where
  pub dead_odd : m.status ≡ DeliveryStatus.dead → m.generation % 2 ≡ 1
  pub else_even : m.status ≢ DeliveryStatus.dead → m.generation % 2 ≡ 0
  pub leased_until : m.status ≡ DeliveryStatus.leased → m.lease_until ≢ none
  pub delivered_since : m.status ≡ DeliveryStatus.delivered → m.delivered_at ≢ none
  pub dead_since : m.status ≡ DeliveryStatus.dead → m.dead_at ≢ none
  pub discarded_since : m.status ≡ DeliveryStatus.discarded → m.discarded_at ≢ none

module _ (m : Message) (w : IsSound m) where
  pub lease-IsSound :
      (worker_id : Text) (now until : Time)
      → is_due now m ≡ true
      → IsSound (lease_message m worker_id until)
  unfolding is_due lease_message
  lease-IsSound worker_id now until h = ground (arith, w)

  pub deliver-IsSound :
      (leased_by : Text) (now : Time)
      → is_held_by m leased_by ≡ true
      → IsSound (deliver_message m now)
  unfolding is_held_by deliver_message
  deliver-IsSound leased_by now h = ground (arith, w)

  pub fail-IsSound :
      (leased_by : Text) (d : Duration) (cause : Text) (now : Time)
      → is_held_by m leased_by ≡ true
      → IsSound (fail_message m d cause now)
  unfolding is_held_by fail_message
  fail-IsSound leased_by d cause now h = ground (arith, w)

  pub apply-IsSound :
      (a : Action) (now : Time) → m.status ≡ DeliveryStatus.dead → IsSound (apply a m now)
  unfolding apply apply_requeue apply_discard
  apply-IsSound requeue now h = ground (arith, w)
  apply-IsSound discard now h = ground (arith, w)

new-IsSound : (ref : ℕ) (msg : OutboxMessage) (now : Time) → IsSound (new_message ref msg now)
unfolding new_message
new-IsSound ref msg now = ground arith

-- All rows of a store, and what keeps it.
module _ {κ} (P : Message → Type κ) where
  All-deref : (r : ℕ) (m : Message) (ms : List Message) → All P ms → deref r ms ≡ some m → P m
  unfolding deref
  All-deref r m [] w h = absurd (cc h)
  All-deref r m (n ∷ ms) w h = elim (Bool-cases (n.ref == r)) [
    | inl e ↦ subst P (some-injective (sym (here e) ∙ h)) w.0
    | inr e ↦ All-deref r m ms w.1 (sym (there e) ∙ h)
  ]
    where
      here : (n.ref == r) ≡ true → deref r (n ∷ ms) ≡ some n
      here e = rw e

      there : (n.ref == r) ≡ false → deref r (n ∷ ms) ≡ deref r ms
      there e = rw e

      some-injective : {x y : Message} → some x ≡ some y → x ≡ y
      some-injective e = cc e

  pub All-write : (r : ℕ) (m : Message) (ms : List Message) → P m → All P ms → All P (write r m ms)
  unfolding write
  All-write r m [] p w = tt
  All-write r m (n ∷ ms) p w = elim (Bool-cases (n.ref == r)) [
    | inl e ↦ rw e (p, w.1)
    | inr e ↦ rw e (w.0, All-write r m ms p w.1)
  ]

  pub All-found :
      (id : Text) (st : Outbox) (m : Message)
      → All P st.messages
      → find_message id st ≡ some m
      → P m
  unfolding find_message
  All-found id st m w h = elim (Option-cases (lookup id st.by_id)) [
    | inl e ↦ absurd (cc (sym (ap (λ o. deref_opt o st.messages) e) ∙ h))
    | inr (r, e) ↦ All-deref r m st.messages w (sym (ap (λ o. deref_opt o st.messages) e) ∙ h)
  ]

-- Every row of the store is sound.
abbrev pub AllSound : Outbox → Type 0
AllSound st = All IsSound st.messages

find_held-ok :
    (id leased_by : Text) (st : Outbox) (m : Message)
    → find_held id leased_by st ≡ ok m
    → (find_message id st ≡ some m) × (is_held_by m leased_by ≡ true)
unfolding find_held
find_held-ok id leased_by st m h = elim (Option-cases (find_message id st)) [
  | inl e ↦ ground (arith, h, e)
  | inr (n, e) ↦ ground (arith, h, e)
]

pub mark_delivered-ok :
    (id leased_by : Text) (now : Time) (st : Outbox) {st' : Outbox}
    → mark_delivered id leased_by now st ≡ ok st'
    → (m : Message) × (find_message id st ≡ some m)
      × (is_held_by m leased_by ≡ true)
      × (st' ≡ update (deliver_message m now) st)
unfolding mark_delivered
mark_delivered-ok id leased_by now st h =
    let (m, held, e) = bind-ok (find_held id leased_by st) _ h in
    let (here, own) = find_held-ok id leased_by st m held in (m, here, own, sym (ok-injective e))

pub fail_with_backoff-ok :
    (id leased_by : Text) (d : Duration) (cause : Text) (now : Time) (st : Outbox) {st' : Outbox}
    → fail_with_backoff id leased_by d cause now st ≡ ok st'
    → (m : Message) × (find_message id st ≡ some m)
      × (is_held_by m leased_by ≡ true)
      × (st' ≡ update (fail_message m d cause now) st)
unfolding fail_with_backoff
fail_with_backoff-ok id leased_by d cause now st h =
    let (m, held, e) = bind-ok (find_held id leased_by st) _ h in
    let (here, own) = find_held-ok id leased_by st m held in (m, here, own, sym (ok-injective e))

pub publish-AllSound :
    (msg : OutboxMessage) (now : Time) (st st' : Outbox)
    → AllSound st
    → publish msg now st ≡ ok st'
    → AllSound st'
unfolding publish
publish-AllSound msg now st st' w h =
    let (_, e) = refuse_if-ok (slt msg.max_attempts 1 || slt 100 msg.max_attempts) _ _ h in
    subst AllSound (ok-injective e) (
      split (has (lookup msg.dedup_key st.by_dedup)) _
        (All-append IsSound st.messages _ w (new-IsSound st.next_ref msg now, tt)))
  where
    split : (b : Bool) (st₁ : Outbox) → AllSound st₁ → AllSound (if b then st else st₁)
    split true st₁ w₁ = w
    split false st₁ w₁ = w₁

lease_all-AllSound :
    (worker_id : Text) (now until : Time) (due : List Message) (st : Outbox)
    → All (λ m. IsSound m × (is_due now m ≡ true)) due
    → AllSound st
    → AllSound (lease_all worker_id until due st).0
unfolding lease_all
lease_all-AllSound worker_id now until [] st d w = w
lease_all-AllSound worker_id now until (m ∷ due) st d w =
    lease_all-AllSound worker_id now until due (update (lease_message m worker_id until) st) d.1
      (All-write IsSound _ _ st.messages (lease-IsSound m d.0.0 worker_id now until d.0.1) w)

pub lease-AllSound :
    (req : OutboxLeaseRequest) (now : Time) (st : Outbox)
    → AllSound st
    → AllSound (lease req now st).0
unfolding lease due_messages
lease-AllSound req now st w =
    lease_all-AllSound req.worker_id now (add_time now req.lease_for) _ st
      (All-take _ req.limit _ (
        All-sort _ (λ (m n : Message). ltb m.created_at n.created_at) _
          (All-and _ _ _ (All-keep IsSound (is_due now) st.messages w)
            (All-keep_test (is_due now) st.messages))))
      w

pub sweep-AllSound :
    (req : RetentionSweepRequest) (now : Time) (st : Outbox) (r : Outbox × RetentionSweepResult)
    → AllSound st
    → sweep_retention req now st ≡ ok r
    → AllSound r.0
unfolding remove_victims
sweep-AllSound req now st r w h =
    subst AllSound (sym (sweep_retention-ok req now st {r = r} h).0) (split req.dry_run)
  where
    split :
        (b : Bool)
        → AllSound (if b then st else remove_victims (all_victims req now st.messages) st)
    split true = w
    split false = All-keep IsSound _ st.messages w
