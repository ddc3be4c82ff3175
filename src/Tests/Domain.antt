-- ===== src/Tests/Domain.antt =====
-- The domain's entities at concrete inputs.
use ants.Prelude.{
  ◌+◌, ◌≤◌, ◌≡◌, ◌≢◌, ◌↔◌, ◌⊎◌, inl, refl, false, none, some, List, [], ◌∷◌, Text, bytes, arith,
  text_eq, length, inc,
}
use Prim.Native.Nat.{min}
use ants.Domain.Errors.{ok}
use ants.Domain.RunStatus.{RunStatus, statuses, transitions, status_eq}
use ants.Domain.TaskStatus.{TaskStatus}
use ants.Domain.ThreadStatus.{ThreadStatus}
use ants.Domain.SpecStatus.{SpecStatus}
use ants.Domain.States.{move}
use ants.Domain.Ids.{Entity, prefix, parse_id, new_id}
use ants.Domain.Ids.Laws.{parse_id-ok_iff, parse_id-new_id, IsIdOf}
use ants.Domain.RunStatus as RS
use ants.Domain.ThreadStatus as HS
use ants.Domain.Run.{transition_to, Run}
use ants.Domain.Run.Progress.{drive, trail, rank, length-trail-le, completed_trail}
use ants.Domain.Task.{Task, TaskKind, new_task}
use ants.Domain.Task as T
use ants.Domain.Task.Laws.{cancel_iff, new_task-attempts, begin_attempts}
use ants.Domain.Thread.{Thread}
use ants.Domain.Thread as H
use ants.Domain.Thread.Laws.{merged_after_review}
use ants.Domain.Spec.{Spec}
use ants.Domain.Spec.Laws.{approval, rejection, decide_all, decide_all-final}
use ants.Domain.Budget.{BudgetLedger}
use ants.Domain.Budget.Laws.{Charge, task, exec_op, spend, IsCapped, spend-IsCapped}
use ants.Tests.Fixtures.{run, run_id, task_id, tenant, zeros}

-- Runs.
abbrev stages : List RunStatus
stages =
    RunStatus.planning ∷ RunStatus.completed ∷ RunStatus.executing ∷ RunStatus.verifying
    ∷ RunStatus.reporting ∷ RunStatus.completed ∷ []

completed_trail_example :
    (trail run stages
      ≡ RunStatus.planning ∷ RunStatus.executing ∷ RunStatus.verifying ∷ RunStatus.reporting
        ∷ RunStatus.completed ∷ [])
    ⊎ (trail run stages
        ≡ RunStatus.planning ∷ RunStatus.executing ∷ RunStatus.integrating ∷ RunStatus.verifying
          ∷ RunStatus.reporting ∷ RunStatus.completed ∷ [])
unfolding drive transition_to move RS.can_transition
completed_trail_example = completed_trail run stages refl refl

length-trail-le_example : length (trail run stages) + rank run.status ≤ 6
length-trail-le_example = length-trail-le run stages

abbrev verifying_run : Run
verifying_run = record run { status = RunStatus.verifying }

abbrev cancelled_run : Run
cancelled_run = record verifying_run {
  status = RunStatus.cancelled;
  version = 2;
  finished_at = some 7;
}

-- Tables.
-- Identifiers.
parse_id-ok_iff_example :
    (parse_id Entity.run run_id ≡ ok run_id)
    ↔ ((run_id ≡ run_id) × IsIdOf (prefix Entity.run) run_id)
parse_id-ok_iff_example = parse_id-ok_iff Entity.run run_id run_id

parse_id-new_id_example :
    (v : Text) × (new_id (prefix Entity.run) (some zeros) ≡ some v) × (parse_id Entity.run v ≡ ok v)
parse_id-new_id_example = parse_id-new_id Entity.run zeros

-- Tasks.
abbrev draft_task : Task
draft_task = record {
  id = task_id;
  tenant_id = tenant;
  run_id = run_id;
  thread_id = [];
  name = bytes "build";
  kind = TaskKind.code_change;
  status = TaskStatus.draft;
  depth = 0;
  depends_on = [];
  attempts = 0;
  max_attempts = 3;
  failure = none;
  version = 1;
  created_at = 5;
  updated_at = 5;
}

made :
    new_task task_id tenant run_id [] (bytes "build") TaskKind.code_change 0 [] 3 5 ≡ ok draft_task
unfolding new_task parse_id text_eq
made = refl

new_task-attempts_example : (begin_attempts 9 draft_task).1 ≡ min 9 3
new_task-attempts_example =
    (new_task-attempts task_id tenant run_id [] (bytes "build") TaskKind.code_change 0 [] 3 5
      {t = draft_task} 9 made).6

abbrev failed_task : Task
failed_task = record draft_task { status = TaskStatus.failed }

cancel_iff_example :
    (T.transition_to failed_task TaskStatus.cancelled
      ≡ ok (record failed_task { status = TaskStatus.cancelled; version = inc 1 }))
    ↔ ((TaskStatus.failed ≢ TaskStatus.done) × (TaskStatus.failed ≢ TaskStatus.cancelled))
cancel_iff_example = cancel_iff failed_task

-- Threads.
abbrev reviewed : Thread
reviewed = record {
  id = [];
  tenant_id = tenant;
  project_id = [];
  title = bytes "title";
  status = ThreadStatus.ready_for_review;
  creator_id = [];
  version = 1;
  created_at = 0;
  updated_at = 0;
}

abbrev merged : Thread
merged = record reviewed { status = ThreadStatus.merged; version = 2 }

merging : H.transition_to reviewed ThreadStatus.merged ≡ ok merged
unfolding H.transition_to move HS.can_transition
merging = refl

merged_after_review_example :
    ((merged.status ≢ ThreadStatus.merged) ⊎ (reviewed.status ≡ ThreadStatus.ready_for_review))
    × ((merged.status ≢ ThreadStatus.ready_for_review) ⊎ (reviewed.status ≡ ThreadStatus.reviewing))
merged_after_review_example = merged_after_review reviewed merged ThreadStatus.merged merging

-- Specifications.
abbrev rejected_spec : Spec
rejected_spec = record {
  id = [];
  tenant_id = tenant;
  thread_id = [];
  version = 1;
  status = SpecStatus.rejected;
  content = record {
    outcome = bytes "done";
    assumptions = [];
    requirements = bytes "r" ∷ [];
    non_goals = [];
    success_criteria = [];
    blockers = [];
  };
  created_at = 0;
}

decide_all-final_example : decide_all (approval ∷ rejection ∷ []) rejected_spec ≡ rejected_spec
decide_all-final_example = decide_all-final (approval ∷ rejection ∷ []) rejected_spec (inl refl)

-- Budgets.
abbrev ledger : BudgetLedger
ledger = record {
  limits = record { max_tasks = 2; max_exec_ops = 3; max_wall_duration = 0; unlimited = false };
  budget_id = [];
  tasks_used = 0;
  exec_ops_used = 0;
}

ledger-IsCapped : IsCapped ledger
ledger-IsCapped = record {
  limited = refl;
  task_cap = omega arith;
  exec_cap = omega arith;
  tasks_within = omega arith;
  exec_within = omega arith;
}

abbrev charges : List Charge
charges = task ∷ exec_op ∷ task ∷ task ∷ []

spend-IsCapped_example :
    IsCapped (spend charges ledger) × ((spend charges ledger).limits ≡ ledger.limits)
spend-IsCapped_example = spend-IsCapped charges ledger ledger-IsCapped
