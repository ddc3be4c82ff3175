-- ===== src/Domain/StatusText.antt =====
-- internal/domain/run.go, task.go and thread.go: the strings that a status is.
use ants.Prelude.{Text, bytes}
use ants.Domain.RunStatus.{RunStatus}
use ants.Domain.ThreadStatus.{ThreadStatus}
use ants.Domain.TaskStatus.{TaskStatus}

unfoldable pub run_status_text : RunStatus → Text
run_status_text RunStatus.pending = bytes "pending"
run_status_text RunStatus.planning = bytes "planning"
run_status_text RunStatus.executing = bytes "executing_tasks"
run_status_text RunStatus.integrating = bytes "integrating"
run_status_text RunStatus.verifying = bytes "verifying"
run_status_text RunStatus.reporting = bytes "reporting"
run_status_text RunStatus.completed = bytes "completed"
run_status_text RunStatus.failed = bytes "failed"
run_status_text RunStatus.cancelled = bytes "cancelled"

unfoldable pub thread_status_text : ThreadStatus → Text
thread_status_text ThreadStatus.idle = bytes "idle"
thread_status_text ThreadStatus.planning = bytes "planning"
thread_status_text ThreadStatus.awaiting_input = bytes "awaiting_input"
thread_status_text ThreadStatus.ready_to_execute = bytes "ready_to_execute"
thread_status_text ThreadStatus.executing = bytes "executing"
thread_status_text ThreadStatus.waiting_external = bytes "waiting_external"
thread_status_text ThreadStatus.needs_attention = bytes "needs_attention"
thread_status_text ThreadStatus.reviewing = bytes "reviewing"
thread_status_text ThreadStatus.fixing = bytes "fixing"
thread_status_text ThreadStatus.ready_for_review = bytes "ready_for_review"
thread_status_text ThreadStatus.merged = bytes "merged"
thread_status_text ThreadStatus.failed = bytes "failed"
thread_status_text ThreadStatus.archived = bytes "archived"

unfoldable pub task_status_text : TaskStatus → Text
task_status_text TaskStatus.draft = bytes "draft"
task_status_text TaskStatus.queued = bytes "queued"
task_status_text TaskStatus.provisioning = bytes "provisioning"
task_status_text TaskStatus.working = bytes "working"
task_status_text TaskStatus.verifying = bytes "verifying"
task_status_text TaskStatus.integrating = bytes "integrating"
task_status_text TaskStatus.done = bytes "done"
task_status_text TaskStatus.blocked = bytes "blocked"
task_status_text TaskStatus.cancelled = bytes "cancelled"
task_status_text TaskStatus.failed = bytes "failed"
task_status_text TaskStatus.waiting_external = bytes "waiting_external"
