-- ===== src/Tests/Repositories.antt =====
-- The repositories at concrete inputs.
use ants.Prelude.{
  ◌≢◌, ℕ, All, keep, ◌≡◌, ◌↔◌, refl, arith, some, [], ◌∷◌, Text, bytes, text_eq, All, Int64,
}
use ants.Domain.Errors.{Error, ok, err, not_foundf}
use ants.Domain.Run.{Run}
use ants.Domain.RunStatus.{RunStatus}
use ants.Domain.Spec.{Spec}
use ants.Domain.SpecStatus.{SpecStatus}
use ants.Store.Assoc.{lookup, put}
use ants.Store.Database.{Database, find_idem}
use ants.Store.Rows.{values, find_own, update_row}
use ants.Store.Rows.Versions.{update_once, replay}
use ants.Store.Rows.Own.{find_own-ok_iff}
use ants.Store.Threads.{has_thread}
use ants.Store.Threads.Messages.{append_all, is_accepted}
use ants.Store.Specs.{pick_latest, latest_for_thread}
use ants.Store.Specs.Latest.{latest_for_thread-ok, IsOneOf, IsNotAbove}
use ants.Store.Events.Delivery as Delivery
use ants.Store.Events.Delivery.{IsDelivered, append_all-IsDelivered}
use ants.Store.Runs.{create, versioned_runs, run_rows, insert_run}
use ants.Store.Runs.Numbered.{IsNumbered, versioned_runs-IsLawful}
use ants.Store.Runs.Sequence.{Reaches, reached-IsNumbered}
use ants.Tests.Fixtures.{tenant, run_id}
use ants.Tests.World.{thread_id, new_world, pending_run, first_run, marshal, event, greeting}

-- The world after the run is created.
abbrev one_run : Database
one_run = record new_world {
  runs = (run_id, first_run) ∷ [];
  run_idem_keys = (record { tenant = tenant; thread = thread_id; key = bytes "key" }, run_id) ∷ [];
  run_seqs = (thread_id, 1) ∷ [];
}

creation : create pending_run new_world ≡ ok (one_run, first_run)
unfolding create has_thread lookup text_eq find_idem insert_run put
creation = refl

abbrev reached : Reaches 1 one_run
reached = Reaches.created pending_run first_run (Reaches.start new_world refl refl refl) creation

reached-IsNumbered_example : IsNumbered 1 one_run
reached-IsNumbered_example = reached-IsNumbered 1 one_run reached (omega arith)

abbrev planned : Run
planned = record first_run { status = RunStatus.planning; version = 2 }

abbrev dropped : Run
dropped = record first_run { status = RunStatus.cancelled; version = 2 }

planning : update_row versioned_runs planned 1 one_run.runs ≡ ok ((run_id, planned) ∷ [], planned)
unfolding update_row lookup text_eq put
planning = refl

update_once_example :
    (x : Error) × (update_row versioned_runs dropped 1
        (replay versioned_runs versioned_runs-IsLawful ((dropped, 7) ∷ []) ((run_id, planned) ∷ []))
      ≡ err x)
update_once_example =
    update_once versioned_runs versioned_runs-IsLawful planned dropped 1 one_run.runs
      ((run_id, planned) ∷ []) planned ((dropped, 7) ∷ []) refl (omega arith) planning

find_own-ok_iff_example :
    ((r : Run)
      → (find_own run_rows tenant run_id one_run.runs ≡ ok r)
        ↔ ((lookup run_id one_run.runs ≡ some r) × (r.tenant_id ≡ tenant)))
    × ((x : Error)
        → find_own run_rows tenant run_id one_run.runs ≡ err x
        → x ≡ not_foundf "run_not_found")
find_own-ok_iff_example = find_own-ok_iff run_rows tenant run_id one_run.runs

-- Both are the thread's.
two_accepted :
    keep (is_accepted new_world thread_id) (greeting ∷ greeting ∷ []) ≡ greeting ∷ greeting ∷ []
unfolding has_thread lookup text_eq
two_accepted = refl

no_row : (key : Text) (r : ℕ) → lookup key new_world.outbox.by_dedup ≢ some r
unfolding lookup
no_row key r h = cc h

append_all-IsDelivered_example :
    IsDelivered marshal new_world.outbox
      (Delivery.append_all marshal ((event, 5) ∷ (event, 6) ∷ []) new_world)
append_all-IsDelivered_example =
    append_all-IsDelivered marshal new_world.outbox ((event, 5) ∷ (event, 6) ∷ []) new_world
      (omega arith)
      (record {
        queued = tt;
        indexed = λ key r h. absurd (no_row key r h);
        issued = tt;
        ascending = tt;
        counted = tt;
      })

abbrev spec_of : Text → Int64 → Spec
spec_of id version = record {
  id = id;
  tenant_id = tenant;
  thread_id = thread_id;
  version = version;
  status = SpecStatus.draft;
  content = record {
    outcome = bytes "done";
    assumptions = [];
    requirements = bytes "it works" ∷ [];
    non_goals = [];
    success_criteria = [];
    blockers = [];
  };
  created_at = 0;
}

abbrev two_specs : Database
two_specs = record new_world {
  specs = (bytes "b", spec_of (bytes "b") 2) ∷ (bytes "a", spec_of (bytes "a") 1) ∷ [];
}

latest : latest_for_thread tenant thread_id two_specs ≡ ok (spec_of (bytes "b") 2)
unfolding latest_for_thread pick_latest text_eq
latest = refl

latest_for_thread-ok_example :
    IsOneOf tenant thread_id (spec_of (bytes "b") 2) (values two_specs.specs)
    × All (IsNotAbove tenant thread_id (spec_of (bytes "b") 2)) (values two_specs.specs)
latest_for_thread-ok_example =
    latest_for_thread-ok tenant thread_id two_specs (spec_of (bytes "b") 2) latest
