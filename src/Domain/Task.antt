-- ===== src/Domain/Task.antt =====
-- internal/domain/task.go.
pub mod Laws
use ants.Prelude.{
  ℕ, Bool, true, false, not, ◌||◌, List, Option, none, some, Text, is_empty, Int64, slt, sle, inc,
  Time, is_neg, if◌then◌else◌,
}
use ants.Domain.Errors.{Result, ok, err, ◌>>=◌, ◌>>◌, refuse_if, invalidf, exhausted}
use ants.Domain.Ids.{Entity, parse_id}
use ants.Domain.States.{move}
use ants.Domain.TaskStatus.{TaskStatus, status_eq, can_transition}

pub record FailureInfo : Type 0 where
  pub code : Text
  pub message : Text
  pub transient : Bool

-- A kind is any string; `Valid` accepts the three that are declared.
pub data TaskKind : Type 0 where
  code_change integration verification : TaskKind
  other : Text → TaskKind

abbrev pub is_valid_kind : TaskKind → Bool
is_valid_kind (other s) = false
is_valid_kind code_change = true
is_valid_kind integration = true
is_valid_kind verification = true

pub record Task : Type 0 where
  pub id : Text
  pub tenant_id : Text
  pub run_id : Text
  pub thread_id : Text
  pub name : Text
  pub kind : TaskKind
  pub status : TaskStatus
  pub depth : Int64
  pub depends_on : List Text
  pub attempts : Int64
  pub max_attempts : Int64
  pub failure : Option FailureInfo
  pub version : Int64
  pub created_at : Time
  pub updated_at : Time

unfoldable pub new_task :
    (id tenant_id run_id thread_id name : Text) (kind : TaskKind) (depth : Int64)
    (depends_on : List Text) (max_attempts : Int64) (now : Time)
    → Result Task
new_task id tenant_id run_id thread_id name kind depth depends_on max_attempts now = do
  _ ← parse_id Entity.task id
  refuse_if (is_empty name) (invalidf "task_name")
  refuse_if (not (is_valid_kind kind)) (invalidf "task_kind")
  refuse_if (is_neg depth) (invalidf "task_depth")
  refuse_if (slt max_attempts 1 || slt 10 max_attempts) (invalidf "task_max_attempts")
  ok (record {
    id = id;
    tenant_id = tenant_id;
    run_id = run_id;
    thread_id = thread_id;
    name = name;
    kind = kind;
    status = TaskStatus.draft;
    depth = depth;
    depends_on = depends_on;
    attempts = 0;
    max_attempts = max_attempts;
    failure = none;
    version = 1;
    created_at = now;
    updated_at = now;
  })

-- On an error the task is as it was, here and in `begin_attempt`.
unfoldable pub transition_to : Task → TaskStatus → Result Task
transition_to t next = do
  status ← move can_transition t.status next
  ok (record t { status = status; version = inc t.version })

unfoldable pub begin_attempt : Task → Result Task
begin_attempt t = do
  refuse_if (sle t.max_attempts t.attempts) (exhausted "task_attempts_exhausted")
  ok (record t { attempts = inc t.attempts })
