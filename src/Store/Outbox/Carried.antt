-- ===== src/Store/Outbox/Carried.antt =====
-- internal/store/memory/outbox.go: what every row keeps, or gains, in a call.
use ants.Prelude.{
  ◌≡◌, refl, sym, subst, Bool, true, false, List, [], ◌∷◌, Text, Time, Duration, ltb, add_time, All,
  All-append, All-keep, All-sort, All-take, All-map_of, slt, ◌||◌, if◌then◌else◌, Bool-cases, inl,
  inr,
}
use ants.Domain.Errors.{Result, ok, err, refuse_if-ok, ok-injective}
use ants.Ports.Outbox.{OutboxMessage, RetentionSweepRequest, Action}
use ants.Store.Assoc.{lookup}
use ants.Store.Outbox.{Outbox, publish, has, lease, lease_all, due_messages, update}
use ants.Store.Outbox.Stored.{
  Message, new_message, is_due, lease_message, deliver_message, fail_message,
}
use ants.Store.Outbox.Retention.{remove_victims, all_victims}
use ants.Store.Outbox.Sweep.{sweep_retention-ok}
use ants.Store.Outbox.Operators.{mutate-ok, apply}
use ants.Store.Outbox.Sound.{All-found, All-write, mark_delivered-ok, fail_with_backoff-ok}
use ants.Store.Outbox.History.{Call, step, or_stay, or_stay_with}

-- A row with the property `P` has the property `Q` after whatever a call does to it.
pub record Turns (P Q : Message → Type 0) : Type 0 where
  pub kept : (m : Message) → P m → Q m
  pub leased :
      (m : Message) (worker_id : Text) (until : Time) → P m → Q (lease_message m worker_id until)
  pub delivered : (m : Message) (now : Time) → P m → Q (deliver_message m now)
  pub failed :
      (m : Message) (d : Duration) (cause : Text) (now : Time)
      → P m
      → Q (fail_message m d cause now)
  pub applied : (a : Action) (m : Message) (now : Time) → P m → Q (apply a m now)

module _ (P Q : Message → Type 0) (turns : Turns P Q) where
  All-kept : (ms : List Message) → All P ms → All Q ms
  All-kept = All-map_of P Q turns.kept

  All-update :
      (st st' : Outbox) (m : Message)
      → All P st.messages
      → Q m
      → st' ≡ update m st
      → All Q st'.messages
  All-update st st' m w q e =
      subst (λ (x : Outbox). All Q x.messages) (sym e)
        (All-write Q m.ref m st.messages q (All-kept st.messages w))

  lease_all-All :
      (worker_id : Text) (until : Time) (due : List Message) (st : Outbox)
      → All P due
      → All Q st.messages
      → All Q (lease_all worker_id until due st).0.messages
  unfolding lease_all
  lease_all-All worker_id until [] st d w = w
  lease_all-All worker_id until (m ∷ due) st d w =
      lease_all-All worker_id until due (update (lease_message m worker_id until) st) d.1
        (All-write Q _ _ st.messages (turns.leased m worker_id until d.0) w)

  or_stay-All :
      (st : Outbox) (r : Result Outbox)
      → All P st.messages
      → ((st' : Outbox) → r ≡ ok st' → All Q st'.messages)
      → All Q (or_stay st r).messages
  or_stay-All st (ok st') w f = f st' refl
  or_stay-All st (err e) w f = All-kept st.messages w

  or_stay_with-All {ℓ} :
      {A : Type ℓ} (st : Outbox) (r : Result (Outbox × A))
      → All P st.messages
      → ((p : Outbox × A) → r ≡ ok p → All Q p.0.messages)
      → All Q (or_stay_with st r).messages
  or_stay_with-All st (ok p) w f = f p refl
  or_stay_with-All st (err e) w f = All-kept st.messages w

  -- What a call that publishes has to add to the store.
  abbrev pub Adds : Time → Call → Outbox → Type 0
  Adds now (Call.publish_one msg) st =
      has (lookup msg.dedup_key st.by_dedup) ≡ false → Q (new_message st.next_ref msg now)
  Adds now call st = Unit {0}

  publish-All :
      (msg : OutboxMessage) (now : Time) (st st' : Outbox)
      → Adds now (Call.publish_one msg) st
      → All P st.messages
      → publish msg now st ≡ ok st'
      → All Q st'.messages
  unfolding publish
  publish-All msg now st st' adds w h =
      let (_, e) = refuse_if-ok (slt msg.max_attempts 1 || slt 100 msg.max_attempts) _ _ h in
      subst (λ (x : Outbox). All Q x.messages) (ok-injective e)
        (elim (Bool-cases (has (lookup msg.dedup_key st.by_dedup))) [
          | inl there ↦ rw there (All-kept st.messages w)
          | inr gone ↦ rw gone (All-append Q st.messages _ (All-kept st.messages w) (adds gone, tt))
        ])

  sweep-All :
      (req : RetentionSweepRequest) (now : Time) (st st' : Outbox) (dry : Bool)
      → All P st.messages
      → st' ≡ (if dry then st else remove_victims (all_victims req now st.messages) st)
      → All Q st'.messages
  unfolding remove_victims
  sweep-All req now st st' true w e =
      subst (λ (x : Outbox). All Q x.messages) (sym e) (All-kept st.messages w)
  sweep-All req now st st' false w e =
      subst (λ (x : Outbox). All Q x.messages) (sym e)
        (All-keep Q _ st.messages (All-kept st.messages w))

  pub step-All :
      (now : Time) (call : Call) (st : Outbox)
      → Adds now call st
      → All P st.messages
      → All Q (step now call st).messages
  unfolding step lease due_messages
  step-All now (Call.publish_one msg) st adds w =
      or_stay-All st _ w (λ st' h. publish-All msg now st st' adds w h)
  step-All now (Call.lease_some req) st adds w =
      lease_all-All req.worker_id (add_time now req.lease_for) _ st
        (All-take P req.limit _ (
          All-sort P (λ (m n : Message). ltb m.created_at n.created_at) _
            (All-keep P (is_due now) st.messages w)))
        (All-kept st.messages w)
  step-All now (Call.deliver_one id leased_by) st adds w = or_stay-All st _ w (λ st' h.
      let (m, here, held, e) = mark_delivered-ok id leased_by now st h in
      All-update st st' _ w (turns.delivered m now (All-found P id st m w here)) e)
  step-All now (Call.fail_one id leased_by d cause) st adds w = or_stay-All st _ w (λ st' h.
      let (m, here, held, e) = fail_with_backoff-ok id leased_by d cause now st h in
      All-update st st' _ w (turns.failed m d cause now (All-found P id st m w here)) e)
  step-All now (Call.operate a req) st adds w = or_stay_with-All st _ w (λ p h.
      let (m, here, _, dead, _, e) = mutate-ok a req now st {r = p} h in
      All-update st p.0 _ w (turns.applied a m now (All-found P req.message_id st m w here)) e)
  step-All now (Call.sweep req) st adds w =
      or_stay_with-All st _ w
        (λ p h. sweep-All req now st p.0 req.dry_run w (sweep_retention-ok req now st {r = p} h).0)
