-- ===== src/Engine/Recovery.antt =====
-- internal/orchestration/recovery.go and exhausted.go: runs that no worker finishes are ended. A cause
-- is the text of the Go error. The instants and identifiers of the two events are ticks.
pub mod Ended
pub mod Convergence
use ants.Prelude.{
  Bool, true, false, Option, none, some, List, [], ◌∷◌, ◌++◌, Text, bytes, Time, Int64, take,
  if◌then◌else◌,
}
use ants.Domain.Errors.{ErrorKind, Error, Result, ok, err, conflictf}
use ants.Domain.Audit.{Value, Metadata}
use ants.Domain.Event.{Event, EventType}
use ants.Domain.RunStatus.{RunStatus}
use ants.Domain.RunStatus as RS
use ants.Domain.ThreadStatus.{ThreadStatus}
use ants.Domain.StatusText.{run_status_text}
use ants.Domain.Task.{FailureInfo}
use ants.Domain.Run.{Run, is_terminal, finish}
use ants.Domain.Thread.{Thread}
use ants.Store.Database.{Database}
use ants.Store.Runs as Runs
use ants.Store.Threads as Threads
use ants.Store.Transactor.{Action, transact, return, ◌>>=◌, ◌>>◌}
use ants.Engine.{
  Tick, lift, on_store, read_store, emit_event, evt_from_run, transition_thread_with_data,
}

abbrev pub interrupted_failure_code : Text
interrupted_failure_code = bytes "run_interrupted"

abbrev pub exhausted_failure_code : Text
exhausted_failure_code = bytes "run_attempts_exhausted"

-- What the calls read on the way: the instant at which the run ends, and the ticks of the run's event
-- and the thread's.
pub record Moment : Type 0 where
  pub finished_at : Time
  pub run_tick : Tick
  pub thread_tick : Tick

-- `safeDetail` of a cause, or the sentence that stands for none.
unfoldable pub detail_of : (fallback : Text) → (cause : Option Text) → Text
detail_of fallback none = fallback
detail_of fallback (some message) = take 512 message

abbrev pub tolerated : Database × Result Thread → Database × Result (Unit {0})
tolerated (db, ok thread) = (db, ok tt)
tolerated (db, err e) = elim e.kind [ ErrorKind.invalid_transition ↦ (db, ok tt) | _ ↦ (db, err e) ]

-- A move that the thread does not allow leaves it as it is.
abbrev pub tolerate : Action Thread → Action (Unit {0})
tolerate move = λ db. tolerated (move db)

-- Where a thread goes whose run has failed.
unfoldable pub failed_successor : ThreadStatus → Option ThreadStatus
failed_successor ThreadStatus.planning = some ThreadStatus.failed
failed_successor ThreadStatus.executing = some ThreadStatus.failed
failed_successor ThreadStatus.reviewing = some ThreadStatus.failed
failed_successor ThreadStatus.ready_to_execute = some ThreadStatus.needs_attention
failed_successor _ = none

-- Where a thread goes whose run never started.
unfoldable pub exhausted_successor : ThreadStatus → Option ThreadStatus
exhausted_successor ThreadStatus.planning = some ThreadStatus.awaiting_input
exhausted_successor ThreadStatus.executing = some ThreadStatus.needs_attention
exhausted_successor ThreadStatus.ready_to_execute = some ThreadStatus.needs_attention
exhausted_successor _ = none

module _ (marshal : Event → Option Text) (carried : Option Text) where
  abbrev pub route : Option ThreadStatus → Thread → (reason : Text) → Tick → Action (Unit {0})
  route none thread reason tick = return tt
  route (some next) thread reason tick = tolerate (
      transition_thread_with_data marshal carried false thread next
        ((bytes "reason", Value.text reason) ∷ []) tick)

  unfoldable pub route_failed_thread : Thread → (reason : Text) → Tick → Action (Unit {0})
  unfolding failed_successor
  route_failed_thread thread reason tick = route (failed_successor thread.status) thread reason tick

  -- The run as it is after `Finish`, and its event, in one unit of work.
  unfoldable pub commit_finished : (expected finished : Run) → Metadata → Tick → Action Run
  commit_finished expected finished payload tick = transact false do
    stored ← on_store (Runs.update finished expected.version)
    emit_event marshal carried (evt_from_run stored EventType.run_status_changed payload) tick
    return stored

  unfoldable pub end_as_failed :
      Run → (code detail : Text) → (event_extra : Metadata) → Moment → Action (Unit {0})
  unfolding commit_finished route_failed_thread
  end_as_failed run code detail event_extra m = do
    thread ← read_store (Threads.get run.tenant_id run.thread_id)
    finished ← lift (
        finish run RunStatus.failed m.finished_at
          (some (record { code = code; message = detail; transient = false })))
    _ ←
        commit_finished run finished
          ((bytes "to", Value.text (run_status_text RunStatus.failed))
            ∷ (bytes "code", Value.text code)
            ∷ (bytes "detail", Value.text detail)
            ∷ event_extra)
          m.run_tick
    route_failed_thread thread code m.thread_tick

  unfoldable pub converge_run_to_failed :
      Run → (code detail : Text) → (event_extra : Metadata) → Moment → Action (Unit {0})
  unfolding end_as_failed
  converge_run_to_failed run code detail event_extra m =
      if is_terminal run.status then return tt else end_as_failed run code detail event_extra m

  unfoldable pub recover_interrupted :
      (tenant_id run_id : Text) → (cause : Option Text) → Moment → Action (Unit {0})
  unfolding converge_run_to_failed detail_of
  recover_interrupted tenant_id run_id cause m = do
    run ← read_store (Runs.get tenant_id run_id)
    (if RS.eq run.status RunStatus.pending
        then lift (err (conflictf "run_not_interrupted"))
        else converge_run_to_failed run interrupted_failure_code
            (detail_of (bytes "execution lease lost before completion") cause) [] m)

  unfoldable pub converge_pending_exhausted :
      Run → (detail : Text) → (attempts : Int64) → Moment → Action (Unit {0})
  unfolding commit_finished exhausted_successor
  converge_pending_exhausted run detail attempts m = do
    thread ← read_store (Threads.get run.tenant_id run.thread_id)
    finished ← lift (finish run RunStatus.cancelled m.finished_at none)
    _ ←
        commit_finished run finished
          ((bytes "to", Value.text (run_status_text RunStatus.cancelled))
            ∷ (bytes "code", Value.text exhausted_failure_code)
            ∷ (bytes "detail", Value.text detail)
            ∷ (bytes "attempts", Value.number attempts)
            ∷ [])
          m.run_tick
    route (exhausted_successor thread.status) thread exhausted_failure_code m.thread_tick

  -- A run that is pending is not terminal: the first check of `convergePendingExhausted` passes.
  unfoldable pub converge_exhausted :
      (tenant_id run_id : Text)
      → (attempts : Int64) → (cause : Option Text) → Moment
      → Action (Unit {0})
  unfolding converge_run_to_failed converge_pending_exhausted detail_of
  converge_exhausted tenant_id run_id attempts cause m = do
    run ← read_store (Runs.get tenant_id run_id)
    let detail =
        detail_of (bytes "dispatch attempts exhausted without reaching a terminal state") cause
    (if RS.eq run.status RunStatus.pending
        then converge_pending_exhausted run detail attempts m
        else converge_run_to_failed run exhausted_failure_code detail
            ((bytes "attempts", Value.number attempts) ∷ []) m)
