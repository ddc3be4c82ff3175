-- ===== src/Engine.antt =====
-- internal/orchestration/engine.go: moves of runs, threads and tasks, each with its event in one unit of
-- work. An operation works on copies of rows, as the Go code on what it has read.
pub mod Recovery
pub mod Start
pub mod Moves
use ants.Prelude.{Bool, Option, none, some, List, [], ◌∷◌, ◌++◌, Text, bytes, Time, Entropy}
use ants.Domain.Errors.{Error, Result, ok, err}
use ants.Domain.Ids.{Entity}
use ants.Domain.Audit.{Actor, PrincipalKind, Value, Metadata}
use ants.Domain.Event.{Event, EventType}
use ants.Domain.RunStatus.{RunStatus}
use ants.Domain.ThreadStatus.{ThreadStatus}
use ants.Domain.TaskStatus.{TaskStatus}
use ants.Domain.Run.{Run}
use ants.Domain.Thread.{Thread}
use ants.Domain.Task.{Task}
use ants.Domain.Run as R
use ants.Domain.Thread as H
use ants.Domain.Task as T
use ants.Domain.StatusText.{run_status_text, thread_status_text, task_status_text}
use ants.Correlation.{trace_id}
use ants.Store.Database.{Database}
use ants.Store.Runs as Runs
use ants.Store.Threads as Threads
use ants.Store.Tasks as Tasks
use ants.Store.Events.{append}
use ants.Store.Transactor.{Action, transact, settled, return, new_id_or_fail, ◌>>=◌, ◌>>◌}

-- What the engine's clock, the store's clock and the source of randomness show for one event.
pub record Tick : Type 0 where
  pub at : Time
  pub enqueued_at : Time
  pub entropy : Entropy

-- A check or a computation that reads no store.
abbrev pub lift : {A : Type 0} → Result A → Action A
lift r = λ db. (db, r)

-- An operation of a repository.
abbrev pub on_store : {A : Type 0} → (Database → Result (Database × A)) → Action A
on_store f = λ db. settled db (f db)

abbrev pub read_store : {A : Type 0} → (Database → Result A) → Action A
read_store f = λ db. (db, f db)

-- The zero value of an actor.
abbrev no_actor : Actor
no_actor = record { kind = PrincipalKind.other []; id = [] }

unfoldable pub evt_from_thread : Thread → EventType → (payload : Metadata) → Event
evt_from_thread thread event_type payload = record {
  id = [];
  kind = event_type;
  occurred_at = 0;
  tenant_id = thread.tenant_id;
  aggregate_type = bytes "thread";
  aggregate_id = thread.id;
  aggregate_version = thread.version;
  actor = no_actor;
  trace_id = [];
  seq = 0;
  run_id = [];
  payload = payload;
}

unfoldable pub evt_from_run : Run → EventType → (payload : Metadata) → Event
evt_from_run run event_type payload = record {
  id = [];
  kind = event_type;
  occurred_at = 0;
  tenant_id = run.tenant_id;
  aggregate_type = bytes "run";
  aggregate_id = run.id;
  aggregate_version = run.version;
  actor = no_actor;
  trace_id = [];
  seq = 0;
  run_id = run.id;
  payload = payload;
}

unfoldable pub evt_from_task : Task → EventType → (payload : Metadata) → Event
evt_from_task task event_type payload = record {
  id = [];
  kind = event_type;
  occurred_at = 0;
  tenant_id = task.tenant_id;
  aggregate_type = bytes "task";
  aggregate_id = task.id;
  aggregate_version = task.version;
  actor = no_actor;
  trace_id = [];
  seq = 0;
  run_id = task.run_id;
  payload = payload;
}

abbrev pub thread_event : Thread → (next : ThreadStatus) → (extra : Metadata) → Event
thread_event stored next extra =
    evt_from_thread stored EventType.thread_status_changed
      ((bytes "to", Value.text (thread_status_text next)) ∷ extra)

module _ (marshal : Event → Option Text) (carried : Option Text) where
  -- `carried` is the correlation identifier of the context.
  unfoldable pub emit_event : Event → Tick → Action (Unit {0})
  emit_event event tick = do
    id ← new_id_or_fail Entity.event tick.entropy
    append marshal
        (record event {
          id = id;
          occurred_at = tick.at;
          trace_id = trace_id carried event.trace_id;
        })
        tick.enqueued_at

  -- The moves answer the row as it then stands.
  unfoldable pub transition_run : (inside : Bool) → Run → RunStatus → Tick → Action Run
  unfolding emit_event
  transition_run inside run next tick = transact inside do
    moved ← lift (R.transition_to run next)
    stored ← on_store (Runs.update moved run.version)
    emit_event
        (evt_from_run stored EventType.run_status_changed
          ((bytes "to", Value.text (run_status_text next)) ∷ []))
        tick
    return stored

  unfoldable pub transition_thread_with_data :
      (inside : Bool) → Thread → ThreadStatus → (extra : Metadata) → Tick → Action Thread
  unfolding emit_event
  transition_thread_with_data inside thread next extra tick = transact inside do
    moved ← lift (H.transition_to thread next)
    stored ← on_store (Threads.update moved thread.version)
    emit_event (thread_event stored next extra) tick
    return stored

  unfoldable pub transition_task : (inside : Bool) → Task → TaskStatus → Tick → Action Task
  unfolding emit_event
  transition_task inside task next tick = transact inside do
    moved ← lift (T.transition_to task next)
    stored ← on_store (Tasks.update moved task.version)
    emit_event
        (evt_from_task stored EventType.task_status_changed (
          (bytes "to", Value.text (task_status_text next))
          ∷ (bytes "attempts", Value.number stored.attempts)
          ∷ []))
        tick
    return stored
