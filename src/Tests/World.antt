-- ===== src/Tests/World.antt =====
-- A store with a project, a thread and one run, for the tests of the repositories and the engine.
use ants.Prelude.{some, Option, [], ◌∷◌, Text, bytes}
use ants.Domain.Event.{Event, EventType}
use ants.Domain.Audit.{Actor, PrincipalKind}
use ants.Domain.Run.{Run}
use ants.Domain.RunStatus.{RunStatus}
use ants.Domain.Thread.{Thread, Message, ThreadRole, DeliveryMode}
use ants.Domain.ThreadStatus.{ThreadStatus}
use ants.Domain.Tenant.{Project}
use ants.Store.Database.{Database}
use ants.Tests.Fixtures.{tenant, principal, run, run_id}

abbrev pub thread_id : Text
thread_id = bytes "thr_FFFFFFFFFFFFFFFFFFFF"

abbrev pub project_id : Text
project_id = bytes "prj_GGGGGGGGGGGGGGGGGGGG"

abbrev pub project : Project
project = record {
  id = project_id;
  tenant_id = tenant;
  slug = bytes "demo";
  name = bytes "Demo";
  default_branch = bytes "main";
  seed_name = [];
  version = 1;
  created_at = 0;
}

abbrev pub thread : Thread
thread = record {
  id = thread_id;
  tenant_id = tenant;
  project_id = project_id;
  title = bytes "A thread";
  status = ThreadStatus.idle;
  creator_id = principal;
  version = 1;
  created_at = 0;
  updated_at = 0;
}

abbrev pub new_world : Database
new_world = record {
  outbox_max_attempts = 5;
  tenants = [];
  tenant_slugs = [];
  projects = (project_id, project) ∷ [];
  threads = (thread_id, thread) ∷ [];
  messages = [];
  specs = [];
  tasks = [];
  runs = [];
  run_idem_keys = [];
  run_seqs = [];
  workspaces = [];
  artifacts = [];
  audit_log = [];
  policy_by_run = [];
  integrations = [];
  events = [];
  outbox = record { messages = []; by_id = []; by_dedup = []; next_ref = 0 };
  run_claims = [];
  event_seq = 0;
}

abbrev pub pending_run : Run
pending_run = record run { thread_id = thread_id; seq = 0 }

abbrev pub first_run : Run
first_run = record run { thread_id = thread_id; seq = 1 }

-- The run above, in the middle of its execution, in a thread that executes it.
abbrev pub executing_world : Database
executing_world = record new_world {
  threads = (thread_id, record thread { status = ThreadStatus.executing }) ∷ [];
  runs = (run_id, record first_run { status = RunStatus.executing }) ∷ [];
}

abbrev pub marshal : Event → Option Text
marshal e = some e.id

abbrev pub operator : Actor
operator = record { kind = PrincipalKind.human; id = principal }

abbrev pub event : Event
event = record {
  id = bytes "evt_1";
  kind = EventType.run_started;
  occurred_at = 5;
  tenant_id = tenant;
  aggregate_type = bytes "run";
  aggregate_id = run_id;
  aggregate_version = 1;
  actor = operator;
  trace_id = [];
  seq = 0;
  run_id = run_id;
  payload = [];
}

abbrev pub greeting : Message
greeting = record {
  id = bytes "msg_1";
  tenant_id = tenant;
  thread_id = thread_id;
  seq = 0;
  role = ThreadRole.user;
  delivery_mode = DeliveryMode.immediate;
  content = bytes "please";
  created_at = 0;
}
