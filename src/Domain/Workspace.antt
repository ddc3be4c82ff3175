-- ===== src/Domain/Workspace.antt =====
-- internal/domain/workspace.go: the isolated working copy of a task.
use ants.Prelude.{◌||◌, [], Text, is_empty, Int64, inc, Time}
use ants.Domain.Errors.{Result, ok, ◌>>=◌, ◌>>◌, refuse_if, invalidf}
use ants.Domain.Ids.{Entity, parse_id}
use ants.Domain.States.{move}
use ants.Domain.WorkspaceStatus.{WorkspaceStatus, status_eq, can_transition}

pub record Workspace : Type 0 where
  pub id : Text
  pub tenant_id : Text
  pub task_id : Text
  pub run_id : Text
  pub driver : Text
  pub repo_ref : Text
  pub branch : Text
  pub base_sha : Text
  pub head_sha : Text
  pub status : WorkspaceStatus
  pub version : Int64
  pub created_at : Time

unfoldable pub new_workspace :
    (id tenant_id task_id run_id driver repo_ref branch : Text) (now : Time) → Result Workspace
new_workspace id tenant_id task_id run_id driver repo_ref branch now = do
  _ ← parse_id Entity.workspace id
  refuse_if (is_empty driver || is_empty repo_ref || is_empty branch)
      (invalidf "workspace_identity")
  ok (record {
    id = id;
    tenant_id = tenant_id;
    task_id = task_id;
    run_id = run_id;
    driver = driver;
    repo_ref = repo_ref;
    branch = branch;
    base_sha = [];
    head_sha = [];
    status = WorkspaceStatus.creating;
    version = 1;
    created_at = now;
  })

unfoldable pub transition_to : Workspace → WorkspaceStatus → Result Workspace
transition_to w next = do
  status ← move can_transition w.status next
  ok (record w { status = status; version = inc w.version })
