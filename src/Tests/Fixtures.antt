-- ===== src/Tests/Fixtures.antt =====
-- Concrete data for the tests.
use ants.Prelude.{ℕ, ◌*◌, none, [], ◌∷◌, Text, bytes, Duration}
use ants.Domain.RunStatus.{RunStatus}
use ants.Domain.Run.{Run}
use ants.Ports.Claims.{LeaseRequest}
use ants.Ports.Outbox.{OutboxMessage}
use ants.Store.Claims.{Store}
use ants.Store.Claims.Row.{fresh_claim}
use ants.Store.Outbox.{Outbox}

abbrev pub second : Duration
second = 1000000000

abbrev pub tenant : Text
tenant = bytes "ten_AAAAAAAAAAAAAAAAAAAA"

abbrev pub principal : Text
principal = bytes "prn_BBBBBBBBBBBBBBBBBBBB"

abbrev pub run_id : Text
run_id = bytes "run_CCCCCCCCCCCCCCCCCCCC"

abbrev pub task_id : Text
task_id = bytes "tsk_DDDDDDDDDDDDDDDDDDDD"

abbrev pub worker : Text
worker = bytes "worker-1"

abbrev pub rival : Text
rival = bytes "worker-2"

abbrev pub zeros : ℕ → ℕ
zeros i = 0

abbrev pub run : Run
run = record {
  id = run_id;
  tenant_id = tenant;
  thread_id = [];
  spec_id = [];
  status = RunStatus.pending;
  idempotency_key = bytes "key";
  seq = 1;
  principal = principal;
  task_ids = [];
  report = none;
  version = 1;
  created_at = 0;
  updated_at = 0;
  finished_at = none;
  failure = none;
}

abbrev pub empty_store : Store
empty_store = record { runs = (run_id, run) ∷ []; run_claims = [] }

-- One claim, free, of the run above.
abbrev pub free_store : Store
free_store = record {
  runs = (run_id, run) ∷ [];
  run_claims = (run_id, fresh_claim tenant run_id 0) ∷ [];
}

abbrev pub lease_request : LeaseRequest
lease_request = record {
  tenant_id = tenant;
  run_id = run_id;
  owner = worker;
  lease_for = 10 * second;
}

abbrev pub rival_request : LeaseRequest
rival_request = record {
  tenant_id = tenant;
  run_id = run_id;
  owner = rival;
  lease_for = 10 * second;
}

abbrev pub message : OutboxMessage
message = record {
  id = bytes "evt_EEEEEEEEEEEEEEEEEEEE";
  dedup_key = bytes "evt-1";
  tenant_id = tenant;
  envelope = bytes "payload";
  attempts = 0;
  max_attempts = 2;
}

abbrev pub empty_outbox : Outbox
empty_outbox = record { messages = []; by_id = []; by_dedup = []; next_ref = 0 }
