-- ===== src/Store/Tasks.antt =====
-- internal/store/memory/runs.go, TaskRepository.
use ants.Prelude.{◌&&◌, List, Text, text_eq, Int64, keep, sort, ltb}
use ants.Domain.Errors.{Result, ok, ◌>>=◌, ◌>>◌, refuse_if, conflictf}
use ants.Domain.Task.{Task}
use ants.Store.Assoc.{lookup, put}
use ants.Store.Rows.{Rows, Versioned, has, values, find_own, update_row}
use ants.Store.Database.{Database}

abbrev pub task_rows : Rows Task
task_rows = record {
  key = λ (r : Task). r.id;
  tenant_of = λ (r : Task). r.tenant_id;
  missing = "task_not_found";
}

abbrev pub versioned_tasks : Versioned Task
versioned_tasks = record {
  rows = task_rows;
  version_of = λ (r : Task). r.version;
  with_version = λ v (r : Task). record r { version = v };
}

unfoldable pub create : Task → Database → Result Database
create task db = do
  refuse_if (has (lookup task.id db.tasks)) (conflictf "task_exists")
  ok (record db { tasks = put task.id task db.tasks })

unfoldable pub get : (tenant_id id : Text) → Database → Result Task
get tenant_id id db = find_own task_rows tenant_id id db.tasks

unfoldable pub update : Task → (expected_version : Int64) → Database → Result (Database × Task)
update task expected_version db = do
  (rows, stored) ← update_row versioned_tasks task expected_version db.tasks
  ok (record db { tasks = rows }, stored)

-- In the order of creation.
unfoldable pub list_by_run : (tenant_id run_id : Text) → Database → List Task
list_by_run tenant_id run_id db =
    sort (λ (a b : Task). ltb a.created_at b.created_at)
      (keep (λ (r : Task). text_eq r.run_id run_id && text_eq r.tenant_id tenant_id)
        (values db.tasks))
