-- ===== src/Operators/Trail.antt =====
-- internal/outboxops/service.go: what an operator's decision leaves behind.
use ants.Prelude.{
  ◌≡◌, ◌⊎◌, inl, inr, refl, arith, false, Option, some, [], ◌∷◌, ◌++◌, Text, inc, Option-cases, sym,
  ap, subst, ◌∙◌, ◌≢◌, Time,
}
use ants.Domain.Errors.{Result, ok, err, Error, Result-cases}
use ants.Domain.Ids.{Entity, prefix, new_id}
use ants.Domain.Event.{Event}
use ants.Ports.Outbox.{OutboxMutationRequest, OutboxMutationResult, Action}
use ants.Store.Database.{Database}
use ants.Store.Outbox.{Outbox}
use ants.Store.Events.{append, enqueue}
use ants.Store.Audit.{append_audit}
use ants.Store.Transactor as Transactor
use ants.Store.Transactor.{transact, return, bind-ok, new_id-ok, new_id_or_fail, ◌>>=◌, ◌>>◌}
use ants.Operators.{
  succeeded, Moment, Outcome, outcome_of, operator_event, operator_audit, mutate_outbox,
  mutate_unit, mutate, mutate_row, audit,
}

module _ (marshal : Event → Option Text) where
  -- The event as it is stored.
  abbrev pub numbered : Database → Event → Event
  numbered db evt = record evt { seq = inc db.event_seq }

  -- The state after the row, the event with its delivery, and the audit record are written, and
  -- nothing else is.
  abbrev pub with_trail :
      Action
      → OutboxMutationRequest
      → Moment
      → Outbox
      → OutboxMutationResult
      → (event_id audit_id envelope : Text) → Database
      → Database
  with_trail action req m st res event_id audit_id envelope db =
      let evt = numbered db (operator_event action req res event_id) in
      record db {
        event_seq = inc db.event_seq;
        outbox = enqueue evt envelope db.outbox_max_attempts m.enqueued_at st;
        events = db.events ++ evt ∷ [];
        audit_log = db.audit_log ++ operator_audit action req res audit_id m.audited_at ∷ [];
      }

  -- The row's decision is one that the outbox accepts, and the whole trail stands beside it.
  abbrev pub HasTrail :
      Action → OutboxMutationRequest → Moment → (db db' : Database) → OutboxMutationResult → Type 0
  HasTrail action req m db db' res =
      (st : Outbox) × (event_id : Text) × (audit_id : Text) × (envelope : Text) × (mutate_outbox
          action req m.mutated_at db.outbox
        ≡ ok (st, res))
      × (new_id (prefix Entity.event) m.event_entropy ≡ some event_id)
      × (new_id (prefix Entity.audit_event) m.audit_entropy ≡ some audit_id)
      × (marshal (numbered db (operator_event action req res event_id)) ≡ some envelope)
      × (db' ≡ with_trail action req m st res event_id audit_id envelope db)

  -- Either all of it, or nothing; the observer is told which.
  abbrev pub Landed :
      Action
      → OutboxMutationRequest
      → Moment
      → (db db' : Database) → Result OutboxMutationResult
      → Outcome
      → Type 0
  Landed action req m db db' answer outcome =
      ((res : OutboxMutationResult) × (answer ≡ ok res)
        × HasTrail action req m db db' res
        × (outcome ≡ succeeded))
      ⊎ ((e : Error) × (answer ≡ err e) × (db' ≡ db) × (outcome ≢ succeeded))

  mutate_row-ok :
      (action : Action) (req : OutboxMutationRequest) (now : Time) (db db' : Database)
      {res : OutboxMutationResult}
      → mutate_row action req now db ≡ (db', ok res)
      → (st : Outbox) × (mutate_outbox action req now db.outbox ≡ ok (st, res))
        × (db' ≡ record db { outbox = st })
  mutate_row-ok action req now db db' {res} h =
      elim (Result-cases (mutate_outbox action req now db.outbox)) [
        | inr (x, e) ↦ cc (h, e)
        | inl ((st, r), e) ↦
            let (a, b) : (record db { outbox = st } ≡ db') × (r ≡ res) = ground (arith, h, e) in
            (st, ground (arith, e, b), sym a)
      ]

  abbrev with_event : Event → (envelope : Text) → Time → Database → Database
  with_event evt envelope now db = record db {
    event_seq = inc db.event_seq;
    outbox = enqueue (numbered db evt) envelope db.outbox_max_attempts now db.outbox;
    events = db.events ++ numbered db evt ∷ [];
  }

  append-ok :
      (evt : Event) (now : Time) (db db' : Database)
      → append marshal evt now db ≡ (db', ok tt)
      → (envelope : Text) × (marshal (numbered db evt) ≡ some envelope)
        × (db' ≡ with_event evt envelope now db)
  unfolding append
  append-ok evt now db db' h = elim (Option-cases (marshal (numbered db evt))) [
    | inl k ↦ cc (h, k)
    | inr (envelope, k) ↦ (envelope, k, ground (arith, h, k))
  ]

  -- What follows each step of the unit.
  abbrev after_audit_id :
      Action
      → OutboxMutationRequest
      → Moment
      → OutboxMutationResult
      → (audit_id : Text) → Transactor.Action OutboxMutationResult
  after_audit_id action req m res audit_id =
      audit (operator_audit action req res audit_id m.audited_at) >> return res

  abbrev after_event :
      Action
      → OutboxMutationRequest
      → Moment
      → OutboxMutationResult
      → Transactor.Action OutboxMutationResult
  after_event action req m res =
      new_id_or_fail Entity.audit_event m.audit_entropy >>= after_audit_id action req m res

  abbrev after_event_id :
      Action
      → OutboxMutationRequest
      → Moment
      → OutboxMutationResult
      → (event_id : Text) → Transactor.Action OutboxMutationResult
  after_event_id action req m res event_id =
      append marshal (operator_event action req res event_id) m.enqueued_at
      >> after_event action req m res

  abbrev after_row :
      Action
      → OutboxMutationRequest
      → Moment
      → OutboxMutationResult
      → Transactor.Action OutboxMutationResult
  after_row action req m res =
      new_id_or_fail Entity.event m.event_entropy >>= after_event_id action req m res

  mutate_unit-ok :
      (action : Action) (req : OutboxMutationRequest) (m : Moment) (db db' : Database)
      {res : OutboxMutationResult}
      → mutate_unit marshal action req m db ≡ (db', ok res)
      → HasTrail action req m db db' res
  unfolding mutate_unit append_audit
  mutate_unit-ok action req m db db' {res} h =
      let (r, db₁, h₁, k₁) =
        bind-ok (mutate_row action req m.mutated_at) (after_row action req m) db db' h in
      let (st, found, at₁) = mutate_row-ok action req m.mutated_at db db₁ h₁ in
      let (event_id, db₂, h₂, k₂) =
        bind-ok (new_id_or_fail Entity.event m.event_entropy) (after_event_id action req m r) db₁
          db' k₁ in
      let (id₂, at₂) = new_id-ok Entity.event m.event_entropy db₁ db₂ h₂ in
      let (nothing, db₃, h₃, k₃) =
        bind-ok (append marshal (operator_event action req r event_id) m.enqueued_at)
          (λ _. after_event action req m r) db₂ db' k₂ in
      let (envelope, encoded, at₃) =
        append-ok (operator_event action req r event_id) m.enqueued_at db₂ db₃ h₃ in
      let (audit_id, db₄, h₄, k₄) =
        bind-ok (new_id_or_fail Entity.audit_event m.audit_entropy) (after_audit_id action req m r)
          db₃ db' k₃ in
      let (id₄, at₄) = new_id-ok Entity.audit_event m.audit_entropy db₃ db₄ h₄ in
      let (done, same) : (append_audit (operator_audit action req r audit_id m.audited_at) db₄
            ≡ db')
          × (r ≡ res) =
        ground (arith, k₄) in
      let here : db₂ ≡ record db { outbox = st } = at₂ ∙ at₁ in
      let evt = operator_event action req r event_id in
      subst (HasTrail action req m db db') same (
        st,
        event_id,
        audit_id,
        envelope,
        found,
        id₂,
        id₄,
        ap (λ d. marshal (numbered d evt)) (sym here) ∙ encoded,
        sym done
            ∙ ap (append_audit (operator_audit action req r audit_id m.audited_at))
                (at₄ ∙ at₃ ∙ ap (with_event evt envelope m.enqueued_at) here),
      )

  refused : (e : Error) → outcome_of (some e) ≢ succeeded
  unfolding outcome_of
  refused e h = ground (arith, h)

  mutate_cases :
      (action : Action) (req : OutboxMutationRequest) (m : Moment) (db : Database)
      (r : Database × Result OutboxMutationResult)
      → mutate_unit marshal action req m db ≡ r
      → (db' : Database) (answer : Result OutboxMutationResult) (outcome : Outcome)
      → mutate marshal false action req m db ≡ (db', answer, outcome)
      → Landed action req m db db' answer outcome
  unfolding mutate transact outcome_of
  mutate_cases action req m db (mid, ok res) ran db' answer outcome h =
      let facts : (mid ≡ db') × (ok res ≡ answer) × (succeeded ≡ outcome) =
        ground (arith, h, ran) in
      inl (
        res,
        sym facts.1,
        mutate_unit-ok action req m db db' (ran ∙ ap (λ d. (d, ok res)) facts.0),
        sym facts.2,
      )
  mutate_cases action req m db (mid, err e) ran db' answer outcome h =
      let facts : (db ≡ db') × (err e ≡ answer) × (outcome_of (some e) ≡ outcome) =
        ground (arith, h, ran) in
      inr (e, sym facts.1, sym facts.0, λ k. refused e (facts.2 ∙ k))

  -- An operator's decision never lands without its trail. Outside another unit, a requeue or a
  -- discard that fails, whatever it failed at, leaves the whole state as it was. One that succeeds
  -- is a decision that the outbox accepts of the state before, and beside it stand one event, at the
  -- next place of the event log, its delivery, enqueued in the outbox, and one audit record, both of
  -- the operator's request and the generation that the decision made; nothing else has changed. The
  -- observer is told `succeeded` just where it succeeded.
  pub mutate-HasTrail :
      (action : Action) (req : OutboxMutationRequest) (m : Moment) (db db' : Database)
      (answer : Result OutboxMutationResult) (outcome : Outcome)
      → mutate marshal false action req m db ≡ (db', answer, outcome)
      → Landed action req m db db' answer outcome
  unfolding mutate transact outcome_of
  mutate-HasTrail action req m db db' answer outcome h =
      mutate_cases action req m db (mutate_unit marshal action req m db) refl db' answer outcome h
