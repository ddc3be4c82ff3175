-- ===== src/Store/Outbox/Kept.antt =====
-- internal/store/memory/outbox.go: the one row of a deduplication key, over a history of calls.
use ants.Prelude.{
  ℕ, ◌≡◌, ◌≢◌, ◌<◌, ◌⊎◌, ◌==◌, refl, sym, ap, ◌∙◌, subst, arith, true, false, List, [], ◌∷◌, ◌++◌,
  Text, text_eq, text_eq_iff, Time, Duration, length, keep, All, slt, ◌||◌, take, add_time,
  Bool-cases, inl, inr,
}
use ants.Domain.Errors.{Result, ok, err, refuse_if-ok, ok-injective}
use ants.Ports.Outbox.{OutboxMessage, Action}
use ants.Store.Assoc.{lookup}
use ants.Store.Assoc.Laws.{lookup-put}
use ants.Store.Outbox.{Outbox, write, publish, has, lease, lease_all, due_messages, update}
use ants.Store.Outbox.Stored.{
  Message, new_message, lease_message, deliver_message, fail_message, apply_requeue, apply_discard,
}
use ants.Store.Outbox.Operators.{mutate-ok, apply}
use ants.Store.Outbox.Sound.{mark_delivered-ok, fail_with_backoff-ok}
use ants.Store.Outbox.History.{Call, step, history, or_stay, or_stay_with}
use ants.Store.Outbox.Carried.{Turns, Adds, step-All}

-- The call is not a retention sweep, which frees the keys of the rows that it deletes.
abbrev pub SparesRows : Call → Type 0
SparesRows (Call.sweep req) = ⊥
SparesRows call = Unit

-- The row carries what was published.
abbrev pub IsOf : OutboxMessage → Message → Type 0
IsOf msg m =
    (m.id ≡ msg.id)
    × (m.dedup_key ≡ msg.dedup_key)
    × (m.tenant_id ≡ msg.tenant_id)
    × (m.envelope ≡ msg.envelope)
    × (m.max_attempts ≡ msg.max_attempts)

-- The row has another key and another address than `r`, or carries the message at that address.
abbrev pub IsOnly : OutboxMessage → ℕ → Message → Type 0
IsOnly msg r m = ((m.dedup_key ≢ msg.dedup_key) × (m.ref ≢ r)) ⊎ (IsOf msg m × (m.ref ≡ r))

apply-same :
    (a : Action) (m : Message) (now : Time) (msg : OutboxMessage) (r : ℕ)
    → IsOnly msg r m
    → IsOnly msg r (apply a m now)
unfolding apply apply_requeue apply_discard
apply-same Action.requeue m now msg r h = h
apply-same Action.discard m now msg r h = h

fail-same :
    (m : Message) (d : Duration) (cause : Text) (now : Time) (msg : OutboxMessage) (r : ℕ)
    → IsOnly msg r m
    → IsOnly msg r (fail_message m d cause now)
unfolding fail_message
fail-same m d cause now msg r h = ground arith

module _ (msg : OutboxMessage) (r : ℕ) where
  IsOnly-Turns : Turns (IsOnly msg r) (IsOnly msg r)
  unfolding lease_message deliver_message
  IsOnly-Turns = record {
    kept = λ m p. p;
    leased = λ m w u p. p;
    delivered = λ m now p. p;
    failed = λ m d cause now p. fail-same m d cause now msg r p;
    applied = λ a m now p. apply-same a m now msg r p;
  }

  -- How many rows stand at the address.
  abbrev pub rows_at : List Message → ℕ
  rows_at ms = length (keep (λ (m : Message). m.ref == r) ms)

  rows_at-write :
      (q : ℕ) (m : Message) (ms : List Message) → m.ref ≡ q → rows_at (write q m ms) ≡ rows_at ms
  unfolding write
  rows_at-write q m [] e = refl
  rows_at-write q m (n ∷ ms) e = ground (arith, e, rows_at-write q m ms)

  -- The key is taken, and one row stands at the address, which has been given.
  abbrev pub HasRow : Outbox → Type 0
  HasRow st =
      (has (lookup msg.dedup_key st.by_dedup) ≡ true)
      × (r < st.next_ref)
      × (rows_at st.messages ≡ 1)

  updated-HasRow : (st st' : Outbox) (m : Message) → st' ≡ update m st → HasRow st → HasRow st'
  updated-HasRow st st' m e h =
      subst HasRow (sym e) (h.0, h.1, rows_at-write m.ref m st.messages refl ∙ h.2)

  lease_all-HasRow :
      (worker_id : Text) (until : Time) (due : List Message) (st : Outbox)
      → HasRow st
      → HasRow (lease_all worker_id until due st).0
  unfolding lease_all
  lease_all-HasRow worker_id until [] st h = h
  lease_all-HasRow worker_id until (m ∷ due) st h =
      lease_all-HasRow worker_id until due (update (lease_message m worker_id until) st)
        (updated-HasRow st _ (lease_message m worker_id until) refl h)

  publish-HasRow :
      (other : OutboxMessage) (now : Time) (st st' : Outbox)
      → HasRow st
      → publish other now st ≡ ok st'
      → HasRow st'
  unfolding publish new_message
  publish-HasRow other now st st' h e =
      let (_, same) = refuse_if-ok (slt other.max_attempts 1 || slt 100 other.max_attempts) _ _ e in
      subst HasRow (ok-injective same)
        (elim (Bool-cases (has (lookup other.dedup_key st.by_dedup))) [
          | inl there ↦ rw there h
          | inr gone ↦ rw gone (
            ground (arith, h.0, lookup-put other.dedup_key msg.dedup_key st.next_ref st.by_dedup),
            omega (arith, h.1),
            appended-rows (new_message st.next_ref other now) st.messages (ground (arith, h.1))
                ∙ h.2,
          )
        ])
    where
      appended-rows :
          (m : Message) (ms : List Message)
          → (m.ref == r) ≡ false
          → rows_at (ms ++ m ∷ []) ≡ rows_at ms
      appended-rows m [] e = rw e refl
      appended-rows m (n ∷ ms) e = ground (arith, appended-rows m ms e)

  or_stay-HasRow :
      (st : Outbox) (x : Result Outbox)
      → HasRow st
      → ((st' : Outbox) → x ≡ ok st' → HasRow st')
      → HasRow (or_stay st x)
  or_stay-HasRow st (ok st') h f = f st' refl
  or_stay-HasRow st (err e) h f = h

  or_stay_with-HasRow {ℓ} :
      {A : Type ℓ} (st : Outbox) (x : Result (Outbox × A))
      → HasRow st
      → ((p : Outbox × A) → x ≡ ok p → HasRow p.0)
      → HasRow (or_stay_with st x)
  or_stay_with-HasRow st (ok p) h f = f p refl
  or_stay_with-HasRow st (err e) h f = h

  step-HasRow :
      (now : Time) (call : Call) (st : Outbox)
      → SparesRows call
      → HasRow st
      → HasRow (step now call st)
  unfolding step lease
  step-HasRow now (Call.publish_one other) st spares h =
      or_stay-HasRow st _ h (λ st' e. publish-HasRow other now st st' h e)
  step-HasRow now (Call.lease_some req) st spares h =
      lease_all-HasRow req.worker_id (add_time now req.lease_for)
        (take req.limit (due_messages now st)) st h
  step-HasRow now (Call.deliver_one id leased_by) st spares h = or_stay-HasRow st _ h (λ st' e.
      let (m, here, held, same) = mark_delivered-ok id leased_by now st e in
      updated-HasRow st st' _ same h)
  step-HasRow now (Call.fail_one id leased_by d cause) st spares h = or_stay-HasRow st _ h (λ st' e.
      let (m, here, held, same) = fail_with_backoff-ok id leased_by d cause now st e in
      updated-HasRow st st' _ same h)
  step-HasRow now (Call.operate a req) st spares h = or_stay_with-HasRow st _ h (λ p e.
      let (m, here, _, dead, _, same) = mutate-ok a req now st {r = p} e in
      updated-HasRow st p.0 _ same h)
  step-HasRow now (Call.sweep req) st spares h = absurd spares

  row-Adds :
      (now : Time) (call : Call) (st : Outbox)
      → HasRow st
      → Adds (IsOnly msg r) (IsOnly msg r) IsOnly-Turns now call st
  unfolding new_message
  row-Adds now (Call.publish_one other) st (taken, issued, one) = λ gone. inl (
    λ same. cc (taken, gone, ap (λ k. has (lookup k st.by_dedup)) same),
    λ same. omega (arith, issued, same),
  )
  row-Adds now (Call.lease_some req) st h = tt
  row-Adds now (Call.deliver_one id leased_by) st h = tt
  row-Adds now (Call.fail_one id leased_by d cause) st h = tt
  row-Adds now (Call.operate a req) st h = tt
  row-Adds now (Call.sweep req) st h = tt

  abbrev pub IsPublished : Outbox → Type 0
  IsPublished st = HasRow st × All (IsOnly msg r) st.messages

  pub history-IsPublished :
      (calls : List (Time × Call)) (st : Outbox)
      → All (λ (c : Time × Call). SparesRows c.1) calls
      → IsPublished st
      → IsPublished (history calls st)
  unfolding history
  history-IsPublished [] st spares h = h
  history-IsPublished ((now, call) ∷ calls) st spares (row, only) =
      history-IsPublished calls (step now call st) spares.1 (
        step-HasRow now call st spares.0 row,
        step-All (IsOnly msg r) (IsOnly msg r) IsOnly-Turns now call st (row-Adds now call st row)
            only,
      )

  -- The rows with the key are those at the address.
  pub keyed-same :
      (ms : List Message)
      → All (IsOnly msg r) ms
      → keep (λ (m : Message). text_eq m.dedup_key msg.dedup_key) ms
        ≡ keep (λ (m : Message). m.ref == r) ms
  keyed-same [] h = refl
  keyed-same (m ∷ ms) (inl (k, far), rest) =
      ground (arith, k, far, text_eq_iff m.dedup_key msg.dedup_key, keyed-same ms rest)
  keyed-same (m ∷ ms) (inr (of, here), rest) =
      ground (arith, of.1, here, text_eq_iff m.dedup_key msg.dedup_key, keyed-same ms rest)
