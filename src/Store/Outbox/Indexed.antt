-- ===== src/Store/Outbox/Indexed.antt =====
-- internal/store/memory/outbox.go: what a call does to the index of identifiers.
use ants.Prelude.{
  ℕ, ◌≡◌, ◌≢◌, ◌≤◌, ◌⊎◌, refl, sym, ap, subst, arith, Bool, true, false, ◌||◌, none, List, [], ◌∷◌,
  Text, text_eq_iff, take, Time, slt, add_time, Bool-cases, inl, inr, if◌then◌else◌,
}
use ants.Domain.Errors.{Result, ok, err, refuse_if-ok, ok-injective}
use ants.Ports.Outbox.{OutboxMessage}
use ants.Store.Assoc.{Assoc, lookup, remove}
use ants.Store.Assoc.Laws.{lookup-put, lookup-remove}
use ants.Store.Outbox.{Outbox, publish, has, lease, lease_all, due_messages, update}
use ants.Store.Outbox.Stored.{Message, lease_message}
use ants.Store.Outbox.Retention.{remove_victims, remove_keys, all_victims}
use ants.Store.Outbox.Sweep.{sweep_retention-ok}
use ants.Store.Outbox.Operators.{mutate-ok}
use ants.Store.Outbox.Sound.{mark_delivered-ok, fail_with_backoff-ok}
use ants.Store.Outbox.History.{Call, step, or_stay, or_stay_with}

-- The call publishes nothing under the identifier: producers draw fresh ones.
abbrev pub Spares : Text → Call → Type 0
Spares id (Call.publish_one msg) = msg.id ≢ id
Spares id call = Unit

-- The identifier leads where it led, or nowhere; and no address is given back.
abbrev pub IsLed : Text → Outbox → Outbox → Type 0
IsLed id st st' =
    ((lookup id st'.by_id ≡ lookup id st.by_id) ⊎ (lookup id st'.by_id ≡ none))
    × (st.next_ref ≤ st'.next_ref)

module _ (id : Text) where
  same-IsLed :
      (st st' : Outbox) → st'.by_id ≡ st.by_id → st'.next_ref ≡ st.next_ref → IsLed id st st'
  same-IsLed st st' e f = (inl (ap (lookup id) e), omega (arith, f))

  updated-IsLed : (st st' : Outbox) (m : Message) → st' ≡ update m st → IsLed id st st'
  updated-IsLed st st' m e =
      same-IsLed st st' (ap (λ (x : Outbox). x.by_id) e) (ap (λ (x : Outbox). x.next_ref) e)

  leased-same :
      (worker_id : Text) (until : Time) (due : List Message) (st : Outbox)
      → ((lease_all worker_id until due st).0.by_id ≡ st.by_id)
        × ((lease_all worker_id until due st).0.next_ref ≡ st.next_ref)
  unfolding lease_all
  leased-same worker_id until [] st = (refl, refl)
  leased-same worker_id until (m ∷ due) st =
      leased-same worker_id until due (update (lease_message m worker_id until) st)

  remove_keys-lookup :
      (key : Message → Text) (ms : List Message) (index : Assoc ℕ)
      → (lookup id (remove_keys key ms index) ≡ lookup id index)
        ⊎ (lookup id (remove_keys key ms index) ≡ none)
  unfolding remove_keys
  remove_keys-lookup key [] index = inl refl
  remove_keys-lookup key (m ∷ ms) index =
      ground
        (arith, remove_keys-lookup key ms (remove (key m) index), lookup-remove (key m) id index)

  or_stay-IsLed :
      (st : Outbox) (r : Result Outbox)
      → ((st' : Outbox) → r ≡ ok st' → IsLed id st st')
      → IsLed id st (or_stay st r)
  or_stay-IsLed st (ok st') f = f st' refl
  or_stay-IsLed st (err e) f = (inl refl, omega arith)

  or_stay_with-IsLed {ℓ} :
      {A : Type ℓ} (st : Outbox) (r : Result (Outbox × A))
      → ((p : Outbox × A) → r ≡ ok p → IsLed id st p.0)
      → IsLed id st (or_stay_with st r)
  or_stay_with-IsLed st (ok p) f = f p refl
  or_stay_with-IsLed st (err e) f = (inl refl, omega arith)

  publish-IsLed :
      (msg : OutboxMessage) (now : Time) (st st' : Outbox)
      → msg.id ≢ id
      → publish msg now st ≡ ok st'
      → IsLed id st st'
  unfolding publish
  publish-IsLed msg now st st' fresh h =
      let (_, e) = refuse_if-ok (slt msg.max_attempts 1 || slt 100 msg.max_attempts) _ _ h in
      subst (IsLed id st) (ok-injective e)
        (elim (Bool-cases (has (lookup msg.dedup_key st.by_dedup))) [
          | inl there ↦ rw there (inl refl, omega arith)
          | inr gone ↦ rw gone (
            inl (
                ground
                  (arith, fresh, lookup-put msg.id id st.next_ref st.by_id, text_eq_iff msg.id id)),
            omega arith,
          )
        ])

  swept-IsLed :
      (st : Outbox) (vs : List Message) (dry : Bool)
      → IsLed id st (if dry then st else remove_victims vs st)
  unfolding remove_victims
  swept-IsLed st vs true = (inl refl, omega arith)
  swept-IsLed st vs false = (remove_keys-lookup (λ m. m.id) vs st.by_id, omega arith)

  pub step-IsLed :
      (now : Time) (call : Call) (st : Outbox) → Spares id call → IsLed id st (step now call st)
  unfolding step lease
  step-IsLed now (Call.publish_one msg) st spares =
      or_stay-IsLed st _ (λ st' h. publish-IsLed msg now st st' spares h)
  step-IsLed now (Call.lease_some req) st spares =
      let due = take req.limit (due_messages now st) in
      let (a, b) = leased-same req.worker_id (add_time now req.lease_for) due st in
      same-IsLed st (lease req now st).0 a b
  step-IsLed now (Call.deliver_one id' leased_by) st spares = or_stay-IsLed st _ (λ st' h.
      let (m, here, held, e) = mark_delivered-ok id' leased_by now st h in updated-IsLed st st' _ e)
  step-IsLed now (Call.fail_one id' leased_by d cause) st spares = or_stay-IsLed st _ (λ st' h.
      let (m, here, held, e) = fail_with_backoff-ok id' leased_by d cause now st h in
      updated-IsLed st st' _ e)
  step-IsLed now (Call.operate a req) st spares = or_stay_with-IsLed st _ (λ p h.
      let (m, here, _, dead, _, e) = mutate-ok a req now st {r = p} h in updated-IsLed st p.0 _ e)
  step-IsLed now (Call.sweep req) st spares = or_stay_with-IsLed st _ (λ p h.
      subst (IsLed id st) (sym (sweep_retention-ok req now st {r = p} h).0)
        (swept-IsLed st (all_victims req now st.messages) req.dry_run))
