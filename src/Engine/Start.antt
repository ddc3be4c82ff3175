-- ===== src/Engine/Start.antt =====
-- internal/orchestration/engine.go, StartRun. The look-ups and the unit of work are not under one lock:
-- `others` is what other callers do to the store in between.
pub mod Started
use ants.Prelude.{
  Bool, true, false, Option, none, some, List, [], ◌∷◌, Text, Time, Entropy, String, if◌then◌else◌,
}
use ants.Domain.Errors.{ErrorKind, Error, Result, ok, err, invalidf}
use ants.Domain.Ids.{Entity}
use ants.Domain.Audit.{Actor, validate_actor}
use ants.Domain.Event.{Event}
use ants.Domain.ThreadStatus.{ThreadStatus}
use ants.Domain.Run.{Run, new_run, with_principal}
use ants.Domain.Thread.{Thread}
use ants.Store.Claims.{Store}
use ants.Store.Claims as Claims
use ants.Store.Database.{Database}
use ants.Store.Runs as Runs
use ants.Store.Threads as Threads
use ants.Store.Projects as Projects
use ants.Store.Transactor.{Action, transact, return, new_id_or_fail, ◌>>=◌, ◌>>◌}
use ants.Engine.{Tick, lift, on_store, read_store, transition_thread_with_data}

pub record StartInput : Type 0 where
  pub tenant_id : Text
  pub thread_id : Text
  pub principal : Text
  pub actor : Actor
  pub idempotency_key : Text

-- What the clocks and the source of randomness show on the way.
pub record Moment : Type 0 where
  pub created_at : Time
  pub claimed_at : Time
  pub run_entropy : Entropy
  pub thread_tick : Tick

-- A failure that is answered as another error.
abbrev answered :
    {A : Type 0} → (code : String) → Database → Result A → Database × Result (Unit {0})
answered code db (ok value) = (db, ok tt)
answered code db (err e) = (db, err (invalidf code))

abbrev or_invalid : {A : Type 0} → (code : String) → (Database → Result A) → Action (Unit {0})
or_invalid code look = λ db. answered code db (look db)

-- The part of the state that the claims' repository works on.
abbrev pub claim_store : Database → Store
claim_store db = record { runs = db.runs; run_claims = db.run_claims }

abbrev pub with_claims : Database → Result Store → Database × Result (Unit {0})
with_claims db (ok st) = (record db { run_claims = st.run_claims }, ok tt)
with_claims db (err e) = (db, err e)

abbrev pub create_claim : (tenant_id run_id : Text) → Time → Action (Unit {0})
create_claim tenant_id run_id now =
    λ db. with_claims db (Claims.create tenant_id run_id now (claim_store db))

abbrev existing_or : Database → Result Run → Database × Result (Option Run)
existing_or db (ok run) = (db, ok (some run))
existing_or db (err e) = elim e.kind [ ErrorKind.not_found ↦ (db, ok none) | _ ↦ (db, err e) ]

abbrev pub by_key : StartInput → Database → Result Run
by_key input db =
    Runs.get_by_idempotency_key input.tenant_id input.thread_id input.idempotency_key db

abbrev find_existing : StartInput → Action (Option Run)
find_existing input = λ db. existing_or db (by_key input db)

abbrev pub is_conflict : ErrorKind → Bool
is_conflict ErrorKind.conflict = true
is_conflict _ = false

-- The run of the request that has won a race, if the error is a conflict and there is one.
abbrev pub winner : Error → Result Run → Result (Run × Bool)
winner e (ok run) = ok (run, true)
winner e (err x) = err e

abbrev pub replayed_or : Error → Result Run → Result (Run × Bool)
replayed_or e found = if is_conflict e.kind then winner e found else err e

abbrev pub settle_start : StartInput → Database × Result Run → Database × Result (Run × Bool)
settle_start input (db, ok run) = (db, ok (run, false))
settle_start input (db, err e) = (db, replayed_or e (by_key input db))

module _ (marshal : Event → Option Text) (carried : Option Text) where
  -- The function that runs in the unit of work.
  unfoldable pub start_unit : StartInput → Thread → (run_id : Text) → Moment → Action Run
  start_unit input thread run_id m = do
    created ←
        lift (new_run run_id input.tenant_id input.thread_id input.idempotency_key m.created_at)
    stored ← on_store (Runs.create (with_principal created input.principal))
    create_claim stored.tenant_id stored.id m.claimed_at
    _ ←
        transition_thread_with_data marshal carried true thread ThreadStatus.planning []
          m.thread_tick
    return stored

  unfoldable pub commit_start : StartInput → Thread → (run_id : Text) → Moment → Action (Run × Bool)
  unfolding start_unit
  commit_start input thread run_id m =
      λ db. settle_start input (transact false (start_unit input thread run_id m) db)

  abbrev start_new :
      (others : Database → Database) → StartInput → Thread → Moment → Action (Run × Bool)
  start_new others input thread m = do
    or_invalid "run_project_unknown" (Projects.get input.tenant_id thread.project_id)
    or_invalid "run_no_request" (Threads.messages input.tenant_id input.thread_id 0 1)
    run_id ← new_id_or_fail Entity.run m.run_entropy
    λ db. commit_start input thread run_id m (others db)

  abbrev start_or_replay :
      (others : Database → Database)
      → StartInput
      → Thread
      → Moment
      → Option Run
      → Action (Run × Bool)
  start_or_replay others input thread m (some run) = return (run, true)
  start_or_replay others input thread m none = start_new others input thread m

  -- The run, and whether it is one that was there.
  unfoldable pub start_run :
      (others : Database → Database) → StartInput → Moment → Action (Run × Bool)
  unfolding commit_start
  start_run others input m = do
    lift (validate_actor input.actor)
    thread ← read_store (Threads.get input.tenant_id input.thread_id)
    found ← find_existing input
    start_or_replay others input thread m found
