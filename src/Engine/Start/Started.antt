-- ===== src/Engine/Start/Started.antt =====
-- internal/orchestration/engine.go, StartRun: a run and its claim are made together, or neither is.
use ants.Prelude.{
  ◌≡◌, ◌⊎◌, refl, sym, ap, subst, ◌∙◌, arith, Bool, true, false, Option, none, some, [], Text, Time,
  text_eq_refl, Bool-cases, inl, inr,
}
use ants.Domain.Errors.{Error, Result, ok, err, Result-cases}
use ants.Domain.Ids.{parse_id, Entity}
use ants.Domain.Event.{Event}
use ants.Domain.RunStatus.{RunStatus}
use ants.Domain.ThreadStatus.{ThreadStatus}
use ants.Domain.Run.{Run, new_run, with_principal}
use ants.Domain.Thread.{Thread}
use ants.Store.Assoc.{Assoc, lookup, put}
use ants.Store.Assoc.Laws.{lookup-put}
use ants.Store.Claims as Claims
use ants.Store.Claims.Inversion as Inversion
use ants.Store.Claims.Row.{fresh_claim}
use ants.Store.Database.{Database}
use ants.Store.Runs as Runs
use ants.Store.Runs.{insert_run, last_seq}
use ants.Store.Runs.Numbered.{create-ok}
use ants.Store.Transactor.{Action, transact, restore, return, bind-ok, ◌>>=◌}
use ants.Store.Transactor.Frame.{kept}
use ants.Engine.{lift, on_store, transition_thread_with_data}
use ants.Engine.Moves.{
  on_store-ok, runs_of, runs-IsApart, claims_of, claims-IsApart, transition_thread-Keeps,
}
use ants.Engine.Start.{
  StartInput, Moment, claim_store, create_claim, by_key, is_conflict, replayed_or, settle_start,
  start_unit, commit_start,
}

-- The run is new, pending and the requester's, and a claim that any worker can take stands beside it.
abbrev pub HasStarted : StartInput → Moment → (db db' : Database) → Run → Type 0
HasStarted input m db db' run =
    (lookup run.id db.runs ≡ none)
    × (lookup run.id db'.runs ≡ some run)
    × (run.status ≡ RunStatus.pending)
    × (run.tenant_id ≡ input.tenant_id)
    × (run.thread_id ≡ input.thread_id)
    × (run.idempotency_key ≡ input.idempotency_key)
    × (run.principal ≡ input.principal)
    × (lookup run.id db.run_claims ≡ none)
    × (lookup run.id db'.run_claims ≡ some (fresh_claim input.tenant_id run.id m.claimed_at))

new_run-ok :
    (id tenant thread key : Text) (at : Time) {r : Run}
    → new_run id tenant thread key at ≡ ok r
    → (r.status ≡ RunStatus.pending)
      × (r.tenant_id ≡ tenant)
      × (r.thread_id ≡ thread)
      × (r.idempotency_key ≡ key)
unfolding new_run
new_run-ok id tenant thread key at {r} h = elim (Result-cases (parse_id Entity.run id)) [
  | inr (x, k) ↦ cc (h, k)
  | inl (v, k) ↦ ground (arith, h, k)
]

found_put {ℓ} : {V : Type ℓ} (k : Text) (v : V) (m : Assoc V) → lookup k (put k v m) ≡ some v
found_put k v m = ground (arith, lookup-put k k v m, text_eq_refl k)

-- What an insertion answers and leaves.
inserted :
    (r : Run) (db db' : Database) (stored : Run)
    → (db', stored) ≡ insert_run r db
    → (runs_of db' ≡ put stored.id stored db.runs)
      × (claims_of db' ≡ claims_of db)
      × (stored.id ≡ r.id)
      × (stored.status ≡ r.status)
      × (stored.tenant_id ≡ r.tenant_id)
      × (stored.thread_id ≡ r.thread_id)
      × (stored.idempotency_key ≡ r.idempotency_key)
      × (stored.principal ≡ r.principal)
unfolding insert_run
inserted r db db' stored e =
    subst
      (λ (x : Database × Run).
        (runs_of x.0 ≡ put x.1.id x.1 db.runs)
        × (claims_of x.0 ≡ claims_of db)
        × (x.1.id ≡ r.id)
        × (x.1.status ≡ r.status)
        × (x.1.tenant_id ≡ r.tenant_id)
        × (x.1.thread_id ≡ r.thread_id)
        × (x.1.idempotency_key ≡ r.idempotency_key)
        × (x.1.principal ≡ r.principal))
      (sym e) (refl, refl, refl, refl, refl, refl, refl, refl)

-- What making a claim has found and leaves.
create_claim-ok :
    (tenant_id run_id : Text) (now : Time) (db db' : Database)
    → create_claim tenant_id run_id now db ≡ (db', ok tt)
    → (lookup run_id db.run_claims ≡ none)
      × (db'
          ≡ record db { run_claims = put run_id (fresh_claim tenant_id run_id now) db.run_claims })
create_claim-ok tenant_id run_id now db db' h =
    elim (Result-cases (Claims.create tenant_id run_id now (claim_store db))) [
      | inr (x, k) ↦ cc (h, k)
      | inl (st, k) ↦
          let (r, there, absent, wrote) =
            Inversion.create-ok tenant_id run_id now (claim_store db) k in
          (absent, ground (arith, h, k, wrote))
    ]

module _ (marshal : Event → Option Text) (carried : Option Text) where
  -- What follows each step of the unit.
  abbrev then_return : Run → Thread → Action Run
  then_return stored moved = return stored

  abbrev then_move : Thread → Moment → Run → Unit {0} → Action Run
  then_move thread m stored _ =
      transition_thread_with_data marshal carried true thread ThreadStatus.planning [] m.thread_tick
      >>= then_return stored

  abbrev then_claim : Thread → Moment → Run → Action Run
  then_claim thread m stored =
      create_claim stored.tenant_id stored.id m.claimed_at >>= then_move thread m stored

  abbrev then_create : StartInput → Thread → Moment → Run → Action Run
  then_create input thread m created =
      on_store (Runs.create (with_principal created input.principal)) >>= then_claim thread m

  start_unit-ok :
      (input : StartInput) (thread : Thread) (run_id : Text) (m : Moment) (db db' : Database)
      {run : Run}
      → start_unit marshal carried input thread run_id m db ≡ (db', ok run)
      → HasStarted input m db db' run
  unfolding start_unit with_principal
  start_unit-ok input thread run_id m db db' {run} h =
      let (created, db₁, h₁, k₁) =
        bind-ok
          (lift (new_run run_id input.tenant_id input.thread_id input.idempotency_key m.created_at))
          (then_create input thread m) db db' h in
      let (stored, db₂, h₂, k₂) =
        bind-ok (on_store (Runs.create (with_principal created input.principal)))
          (then_claim thread m) db₁ db' k₁ in
      let (u, db₃, h₃, k₃) =
        bind-ok (create_claim stored.tenant_id stored.id m.claimed_at) (then_move thread m stored)
          db₂ db' k₂ in
      let (moved, db₄, h₄, k₄) =
        bind-ok
          (transition_thread_with_data marshal carried true thread ThreadStatus.planning []
            m.thread_tick)
          (then_return stored) db₃ db' k₃ in
      let same₁ : db₁ ≡ db = sym (ap (λ (x : Database × Result Run). x.0) h₁) in
      let made =
        new_run-ok run_id input.tenant_id input.thread_id input.idempotency_key m.created_at
          (ap (λ (x : Database × Result Run). x.1) h₁) in
      let run_in = with_principal created input.principal in
      let (free, absent, known, insert) =
        create-ok run_in db₁ db₂ (on_store-ok (Runs.create run_in) db₁ db₂ h₂) in
      let (runs₂, claims₂, id, status, tenant, thread_id, key, principal) =
        inserted run_in db₁ db₂ stored insert in
      let (unclaimed, wrote) = create_claim-ok stored.tenant_id stored.id m.claimed_at db₂ db₃ h₃ in
      let (end, answer) : (db₄ ≡ db') × (stored ≡ run) = ground (arith, k₄) in
      let move =
        transition_thread_with_data marshal carried true thread ThreadStatus.planning []
          m.thread_tick in
      let own : stored.tenant_id ≡ input.tenant_id = tenant ∙ made.1 in
      subst (HasStarted input m db db') answer (
        ap (λ k. lookup k db.runs) id
            ∙ ap (λ (d : Database). lookup created.id d.runs) (sym same₁)
            ∙ absent,
        ap (lookup stored.id) (
              ap runs_of (sym end)
              ∙ kept runs_of move db₃ db₄
                  (transition_thread-Keeps runs_of runs-IsApart marshal carried true thread
                    ThreadStatus.planning [] m.thread_tick)
                  h₄
              ∙ ap runs_of wrote
              ∙ runs₂)
            ∙ found_put stored.id stored db₁.runs,
        status ∙ made.0,
        own,
        thread_id ∙ made.2,
        key ∙ made.3,
        principal,
        ap (λ (d : Database). lookup stored.id d.run_claims) (sym same₁)
            ∙ ap (lookup stored.id) (sym claims₂)
            ∙ unclaimed,
        ap (lookup stored.id) (
              ap claims_of (sym end)
              ∙ kept claims_of move db₃ db₄
                  (transition_thread-Keeps claims_of claims-IsApart marshal carried true thread
                    ThreadStatus.planning [] m.thread_tick)
                  h₄
              ∙ ap claims_of wrote)
            ∙ found_put stored.id (fresh_claim stored.tenant_id stored.id m.claimed_at)
                db₂.run_claims
            ∙ ap (λ t. some (fresh_claim t stored.id m.claimed_at)) own,
      )

  -- The three ends of a start, from the state that its unit of work meets.
  abbrev pub Ends : StartInput → Moment → (db db' : Database) → Result (Run × Bool) → Type 0
  Ends input m db db' answer =
      ((run : Run) × (answer ≡ ok (run, false)) × HasStarted input m db db' run)
      ⊎ (((run : Run) × (answer ≡ ok (run, true)) × (by_key input db ≡ ok run) × (db' ≡ db))
          ⊎ ((e : Error) × (answer ≡ err e) × (db' ≡ db)))

  replayed-cases :
      (e : Error) (found : Result Run)
      → ((run : Run) × (replayed_or e found ≡ ok (run, true)) × (found ≡ ok run))
        ⊎ ((x : Error) × (replayed_or e found ≡ err x))
  replayed-cases e found = elim (Bool-cases (is_conflict e.kind)) [
    | inr k ↦ inr (e, rw k refl)
    | inl k ↦ elim (Result-cases found) [
      | inl (run, f) ↦ inl (run, rw (k, f) refl, f)
      | inr (x, f) ↦ inr (e, rw (k, f) refl)
    ]
  ]

  commit_cases :
      (input : StartInput) (thread : Thread) (run_id : Text) (m : Moment) (db : Database)
      (r : Database × Result Run)
      → start_unit marshal carried input thread run_id m db ≡ r
      → (db' : Database) (answer : Result (Run × Bool))
      → settle_start input (restore db r) ≡ (db', answer)
      → Ends input m db db' answer
  commit_cases input thread run_id m db (mid, ok run) ran db' answer h =
      let facts : (mid ≡ db') × (ok (run, false) ≡ answer) = ground (arith, h) in
      inl (
        run,
        sym facts.1,
        start_unit-ok input thread run_id m db db' (ran ∙ ap (λ d. (d, ok run)) facts.0),
      )
  commit_cases input thread run_id m db (mid, err e) ran db' answer h =
      let back : db' ≡ db = sym (ap (λ (x : Database × Result (Run × Bool)). x.0) h) in
      let said : replayed_or e (by_key input db) ≡ answer =
        ap (λ (x : Database × Result (Run × Bool)). x.1) h in
      elim (replayed-cases e (by_key input db)) [
        | inl (run, k, found) ↦ inr (inl (run, sym said ∙ k, found, back))
        | inr (x, k) ↦ inr (inr (x, sym said ∙ k, back))
      ]

  -- A start ends in one of three ways, whatever other callers did before its unit of work. Either
  -- the run is new, pending, and as it was asked for, and its claim, which any worker can take,
  -- stands beside it. Or nothing was written and the answer is the run that already bears the
  -- idempotency key in this thread. Or nothing was written and the answer is an error. There is
  -- never a run without its claim.
  pub commit_start-Ends :
      (input : StartInput) (thread : Thread) (run_id : Text) (m : Moment) (db db' : Database)
      (answer : Result (Run × Bool))
      → commit_start marshal carried input thread run_id m db ≡ (db', answer)
      → Ends input m db db' answer
  unfolding commit_start transact
  commit_start-Ends input thread run_id m db db' answer h =
      commit_cases input thread run_id m db (start_unit marshal carried input thread run_id m db)
        refl db' answer h
