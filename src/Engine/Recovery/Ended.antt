-- ===== src/Engine/Recovery/Ended.antt =====
-- internal/orchestration/recovery.go and exhausted.go: where a convergence succeeds, the run is over.
use ants.Prelude.{
  ◌≡◌, refl, sym, ap, ◌∙◌, arith, true, false, Option, none, some, [], ◌∷◌, Text, bytes, Time, inc,
}
use ants.Domain.Errors.{Result, ok, err}
use ants.Domain.Audit.{Metadata, Value}
use ants.Domain.Event.{Event, EventType}
use ants.Domain.Task.{FailureInfo}
use ants.Domain.RunStatus.{RunStatus}
use ants.Domain.States.{move}
use ants.Domain.ThreadStatus.{ThreadStatus}
use ants.Domain.Run.{Run, is_terminal, finish}
use ants.Domain.Run as R
use ants.Domain.Run.Laws.{finish-ok}
use ants.Domain.Thread.{Thread}
use ants.Store.Assoc.{put}
use ants.Store.Database.{Database}
use ants.Store.Runs as Runs
use ants.Store.Runs.Numbered.{update-ok}
use ants.Store.Transactor.{Action, return, bind-ok, transact-ok, ◌>>=◌, ◌>>◌}
use ants.Store.Transactor.Frame.{Keeps, kept}
use ants.Store.Threads as Threads
use ants.Engine.{
  Tick, lift, on_store, read_store, transition_thread_with_data, emit_event, evt_from_run,
}
use ants.Engine.Moves.{
  on_store-ok, runs_of, runs-IsApart, emit_event-Keeps, transition_thread-Keeps,
}
use ants.Engine.Recovery.{Moment, tolerated, route, commit_finished}

abbrev reason_data : Text → Metadata
reason_data reason = (bytes "reason", Value.text reason) ∷ []

tolerated-keeps : (r : Database × Result Thread) → runs_of (tolerated r).0 ≡ runs_of r.0
tolerated-keeps (db, ok thread) = refl
tolerated-keeps (db, err e) = ground arith

abbrev pub first_of_pair : {A : Type 0} → Database × Result A → Database
first_of_pair r = r.0

finish-keeps :
    (r : Run) (next : RunStatus) (at : Time) (failure : Option FailureInfo) {r' : Run}
    → finish r next at failure ≡ ok r'
    → (r'.id ≡ r.id) × (r'.tenant_id ≡ r.tenant_id)
unfolding finish R.transition_to move
finish-keeps r next at failure h = ground (arith, h)

module _ (marshal : Event → Option Text) (carried : Option Text) where
  commit_finished-ok :
      (run finished : Run) (payload : Metadata) (tick : Tick) (db db' : Database) {stored : Run}
      → commit_finished marshal carried run finished payload tick db ≡ (db', ok stored)
      → (stored ≡ record finished { version = inc run.version })
        × (runs_of db' ≡ put finished.id stored db.runs)
  unfolding commit_finished
  commit_finished-ok run finished payload tick db db' {stored} h =
      let emit = λ (s : Run).
        emit_event marshal carried (evt_from_run s EventType.run_status_changed payload) tick in
      let (s, db₁, h₁, k₁) =
        bind-ok (on_store (Runs.update finished run.version)) (λ s. emit s >> return s) db db'
          (transact-ok _ db db' h) in
      let (cur, at, same, told, wrote) =
        update-ok finished run.version db db₁
          (on_store-ok (Runs.update finished run.version) db db₁ h₁) in
      let (u, db₂, h₂, k₂) = bind-ok (emit s) (λ _. return s) db₁ db' k₁ in
      let (end, answer) : (db₂ ≡ db') × (s ≡ stored) = ground (arith, k₂) in
      (
        sym answer ∙ told,
        ap runs_of (sym end)
            ∙ kept runs_of (emit s) db₁ db₂
                (emit_event-Keeps runs_of runs-IsApart marshal carried
                  (evt_from_run s EventType.run_status_changed payload) tick)
                h₂
            ∙ ap runs_of wrote
            ∙ ap (λ (x : Run). put finished.id x db.runs) answer,
      )

  route-Keeps :
      (next : Option ThreadStatus) (thread : Thread) (reason : Text) (tick : Tick)
      → Keeps runs_of (route marshal carried next thread reason tick)
  route-Keeps none thread reason tick db = refl
  route-Keeps (some next) thread reason tick db =
      tolerated-keeps
        (transition_thread_with_data marshal carried false thread next (reason_data reason) tick db)
      ∙ transition_thread-Keeps runs_of runs-IsApart marshal carried false thread next
          (reason_data reason) tick db

  -- How a run is ended: finished, written with its event, and its thread routed. From the last step on:
  abbrev then_route :
      (thread : Thread)
      → (Thread → Option ThreadStatus)
      → (reason : Text) → Moment
      → Action (Unit {0})
  then_route thread successor reason m =
      route marshal carried (successor thread) thread reason m.thread_tick

  abbrev then_commit :
      Run
      → (thread : Thread) → Metadata
      → (Thread → Option ThreadStatus)
      → (reason : Text) → Moment
      → (finished : Run) → Action (Unit {0})
  then_commit run thread payload successor reason m finished =
      commit_finished marshal carried run finished payload m.run_tick >>= λ _.
      then_route thread successor reason m

  abbrev then_finish :
      Run
      → RunStatus
      → Option FailureInfo
      → Metadata
      → (Thread → Option ThreadStatus)
      → (reason : Text) → Moment
      → (thread : Thread) → Action (Unit {0})
  then_finish run next failure payload successor reason m thread =
      lift (finish run next m.finished_at failure)
      >>= then_commit run thread payload successor reason m

  abbrev pub ending :
      Run
      → RunStatus
      → Option FailureInfo
      → Metadata
      → (Thread → Option ThreadStatus)
      → (reason : Text) → Moment
      → Action (Unit {0})
  ending run next failure payload successor reason m =
      read_store (Threads.get run.tenant_id run.thread_id)
      >>= then_finish run next failure payload successor reason m

  pub ending-ok :
      (run : Run) (next : RunStatus) (failure : Option FailureInfo) (payload : Metadata)
      (successor : Thread → Option ThreadStatus) (reason : Text) (m : Moment) (db db' : Database)
      → ending run next failure payload successor reason m db ≡ (db', ok tt)
      → (stored : Run) × (stored.status ≡ next)
        × (stored.failure ≡ failure)
        × (stored.tenant_id ≡ run.tenant_id)
        × (is_terminal next ≡ true)
        × (runs_of db' ≡ put run.id stored db.runs)
  ending-ok run next failure payload successor reason m db db' h =
      let (thread, db₁, h₁, k₁) =
        bind-ok (read_store (Threads.get run.tenant_id run.thread_id))
          (then_finish run next failure payload successor reason m) db db' h in
      let (finished, db₂, h₂, k₂) =
        bind-ok (lift (finish run next m.finished_at failure))
          (then_commit run thread payload successor reason m) db₁ db' k₁ in
      let (stored, db₃, h₃, k₃) =
        bind-ok (commit_finished marshal carried run finished payload m.run_tick)
          (λ _. then_route thread successor reason m) db₂ db' k₂ in
      let same : db₂ ≡ db = sym (ap first_of_pair h₂) ∙ sym (ap first_of_pair h₁) in
      let done : finish run next m.finished_at failure ≡ ok finished = ground (arith, h₂) in
      let (going, terminal, status, at, failed, reason_given, version) =
        finish-ok run next m.finished_at failure done in
      let (told, wrote) = commit_finished-ok run finished payload m.run_tick db₂ db₃ h₃ in
      let (id, tenant) = finish-keeps run next m.finished_at failure done in
      (
        stored,
        ap (λ (x : Run). x.status) told ∙ status,
        ap (λ (x : Run). x.failure) told ∙ failed,
        ap (λ (x : Run). x.tenant_id) told ∙ tenant,
        terminal,
        kept runs_of (then_route thread successor reason m) db₃ db'
              (route-Keeps (successor thread) thread reason m.thread_tick) k₃
            ∙ wrote
            ∙ ap (λ k. put k stored (runs_of db₂)) id
            ∙ ap (λ d. put run.id stored (runs_of d)) same,
      )
