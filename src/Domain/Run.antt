-- ===== src/Domain/Run.antt =====
-- internal/domain/run.go.
pub mod Laws
pub mod Progress
use ants.Prelude.{
  ℕ, Bool, true, false, ◌||◌, List, [], Option, none, some, Text, is_empty, length, ltb, Int64, inc,
  Time,
}
use ants.Domain.Errors.{Result, ok, err, ◌>>=◌, ◌>>◌, refuse_if, invalidf}
use ants.Domain.Ids.{Entity, parse_id}
use ants.Domain.States.{move}
use ants.Domain.RunStatus.{RunStatus, status_eq, can_transition}
use ants.Domain.Task.{FailureInfo}
use ants.Domain.Report.{RunReport}

abbrev pub is_terminal : RunStatus → Bool
is_terminal RunStatus.completed = true
is_terminal RunStatus.failed = true
is_terminal RunStatus.cancelled = true
is_terminal _ = false

pub record Run : Type 0 where
  pub id : Text
  pub tenant_id : Text
  pub thread_id : Text
  pub spec_id : Text
  pub status : RunStatus
  pub idempotency_key : Text
  pub seq : Int64
  pub principal : Text
  pub task_ids : List Text
  pub report : Option RunReport
  pub version : Int64
  pub created_at : Time
  pub updated_at : Time
  pub finished_at : Option Time
  pub failure : Option FailureInfo

abbrev pub max_idempotency_key_len : ℕ
max_idempotency_key_len = 256

unfoldable pub new_run : (id tenant_id thread_id idempotency_key : Text) (now : Time) → Result Run
new_run id tenant_id thread_id idempotency_key now = do
  _ ← parse_id Entity.run id
  refuse_if (is_empty idempotency_key) (invalidf "run_idempotency_key")
  refuse_if (ltb max_idempotency_key_len (length idempotency_key)) (invalidf "run_idempotency_key")
  ok (record {
    id = id;
    tenant_id = tenant_id;
    thread_id = thread_id;
    spec_id = [];
    status = RunStatus.pending;
    idempotency_key = idempotency_key;
    seq = 0;
    principal = [];
    task_ids = [];
    report = none;
    version = 1;
    created_at = now;
    updated_at = now;
    finished_at = none;
    failure = none;
  })

unfoldable pub with_principal : Run → Text → Run
with_principal r p = record r { principal = p }

-- On an error the run is as it was, here and in `finish`.
unfoldable pub transition_to : Run → RunStatus → Result Run
transition_to r next = do
  status ← move can_transition r.status next
  ok (record r { status = status; version = inc r.version })

abbrev is_none : Option FailureInfo → Bool
is_none none = true
is_none (some f) = false

-- The `switch` of `Finish` over the state to end in.
check_finish : RunStatus → Option FailureInfo → Result (Unit {0})
check_finish RunStatus.completed failure = ok tt
check_finish RunStatus.failed failure = refuse_if (is_none failure) (invalidf "run_failure")
check_finish RunStatus.cancelled failure = ok tt
check_finish _ failure = err (invalidf "run_finish_state")

unfoldable pub finish : Run → RunStatus → Time → Option FailureInfo → Result Run
unfolding check_finish transition_to
finish r next at failure = do
  check_finish next failure
  r' ← transition_to r next
  ok (record r' { failure = failure; finished_at = some at })
