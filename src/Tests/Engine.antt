-- ===== src/Tests/Engine.antt =====
-- The engine at concrete inputs.
use ants.Prelude.{Bool, ◌≡◌, refl, arith, true, none, some, bytes, text_eq}
use ants.Domain.Errors.{Result, ok}
use ants.Domain.Run.{Run}
use ants.Domain.RunStatus.{RunStatus}
use ants.Domain.ThreadStatus.{ThreadStatus}
use ants.Domain.Ids.{parse_id, new_id, prefix, char_at, new_prefixed, cut, validate_prefixed}
use ants.Store.Assoc.{lookup, put}
use ants.Store.Database.{Database, find_idem, idem_eq}
use ants.Domain.Run as R
use ants.Domain.Run.{finish}
use ants.Domain.Thread as H
use ants.Domain.States.{move, allows}
use ants.Domain.RunStatus as RS
use ants.Domain.ThreadStatus as HS
use ants.Domain.StatusText.{run_status_text, thread_status_text}
use ants.Correlation.{trace_id, from}
use ants.Store.Runs as Runs
use ants.Store.Projects as Projects
use ants.Store.Claims as Claims
use ants.Store.Page.{collect}
use ants.Domain.Audit.{validate_actor}
use ants.Store.Threads as Threads
use ants.Store.Transactor.{transact}
use ants.Store.Rows as Rows
use ants.Store.Rows.{update_row}
use ants.Store.Events.{append, enqueue, delivery}
use ants.Engine.{Tick, emit_event, evt_from_run, evt_from_thread, transition_thread_with_data}
use ants.Engine.Start as Start
use ants.Engine.Start.{StartInput, commit_start, start_run}
use ants.Policy.{is_ok}
use ants.Engine.Start.Started.{commit_start-Ends, Ends}
use ants.Engine.Recovery as Recovery
use ants.Engine.Recovery.{recover_interrupted, converge_exhausted}
use ants.Engine.Recovery.Convergence.{
  IsOver, IsNamed, recover_interrupted-IsOver, converge_exhausted-IsOver,
}
use ants.Tests.Fixtures.{tenant, principal, run_id, zeros}
use ants.Tests.World.{thread_id, thread, new_world, executing_world, marshal, operator}

abbrev tick : Tick
tick = record { at = 9; enqueued_at = 9; entropy = some zeros }

abbrev start_input : StartInput
start_input = record {
  tenant_id = tenant;
  thread_id = thread_id;
  principal = principal;
  actor = operator;
  idempotency_key = bytes "key";
}

abbrev start_moment : Start.Moment
start_moment = record {
  created_at = 9;
  claimed_at = 9;
  run_entropy = some zeros;
  thread_tick = tick;
}

abbrev started : Database × Result (Run × Bool)
started = commit_start marshal none start_input thread run_id start_moment new_world

commit_start-Ends_example : Ends marshal none start_input start_moment new_world started.0 started.1
commit_start-Ends_example =
    commit_start-Ends marshal none start_input thread run_id start_moment new_world started.0
      started.1 refl

abbrev recovery : Recovery.Moment
recovery = record { finished_at = 9; run_tick = tick; thread_tick = tick }

abbrev recovered : Database
recovered = (recover_interrupted marshal none tenant run_id none recovery executing_world).0

recovers :
    recover_interrupted marshal none tenant run_id none recovery executing_world
    ≡ (recovered, ok tt)
unfolding recover_interrupted R.transition_to H.transition_to finish move allows RS.can_transition
    HS.can_transition Runs.get Runs.update Threads.get Threads.update Rows.find_own update_row
    lookup put text_eq transact append enqueue delivery trace_id from new_id char_at new_prefixed
    prefix run_status_text thread_status_text emit_event evt_from_run evt_from_thread
    transition_thread_with_data Recovery.commit_finished Recovery.converge_run_to_failed
    Recovery.detail_of Recovery.end_as_failed Recovery.failed_successor Recovery.route_failed_thread
recovers = refl

named : IsNamed run_id executing_world
unfolding lookup text_eq
named r h = ground (arith, h)

recover_interrupted-IsOver_example :
    IsOver tenant run_id recovered
    × (IsOver tenant run_id executing_world → recovered ≡ executing_world)
recover_interrupted-IsOver_example =
    recover_interrupted-IsOver marshal none tenant run_id none recovery executing_world recovered
      named recovers

abbrev exhausted : Database
exhausted = (converge_exhausted marshal none tenant run_id 6 none recovery executing_world).0

exhausts :
    converge_exhausted marshal none tenant run_id 6 none recovery executing_world
    ≡ (exhausted, ok tt)
unfolding converge_exhausted Recovery.converge_pending_exhausted Recovery.exhausted_successor
    R.transition_to H.transition_to finish move allows RS.can_transition HS.can_transition Runs.get
    Runs.update Threads.get Threads.update Rows.find_own update_row lookup put text_eq transact
    append enqueue delivery trace_id from new_id char_at new_prefixed prefix run_status_text
    thread_status_text emit_event evt_from_run evt_from_thread transition_thread_with_data
    Recovery.commit_finished Recovery.converge_run_to_failed Recovery.detail_of
    Recovery.end_as_failed Recovery.failed_successor Recovery.route_failed_thread
exhausts = refl

converge_exhausted-IsOver_example : IsOver tenant run_id exhausted
converge_exhausted-IsOver_example =
    converge_exhausted-IsOver marshal none tenant run_id 6 none recovery executing_world exhausted
      named exhausts

-- A thread without a message: the run is started all the same.
no_request : is_ok (start_run marshal none (λ db. db) start_input start_moment new_world).1 ≡ true
unfolding start_run validate_actor Threads.get Rows.find_own lookup text_eq
    Runs.get_by_idempotency_key find_idem Projects.get Threads.messages Threads.has_thread new_id
    transact R.new_run parse_id new_prefixed char_at Runs.create from trace_id cut prefix
    validate_prefixed R.with_principal allows move thread_status_text H.transition_to
    HS.can_transition commit_start Start.start_unit emit_event evt_from_thread
    transition_thread_with_data put Claims.create idem_eq append delivery enqueue collect update_row
    Runs.insert_run Runs.last_seq Threads.messages_of Threads.update
no_request = refl
