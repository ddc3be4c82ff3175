-- ===== src/Store/Runs.antt =====
-- internal/store/memory/runs.go, RunRepository. A run that is created or updated is answered as the
-- caller's object then stands.
pub mod Numbered
pub mod Created
pub mod Updated
pub mod Sequence
pub mod History
use ants.Prelude.{
  Bool, not, ◌&&◌, ◌||◌, Option, none, some, List, ◌∷◌, Text, text_eq, Int64, inc, slt, length,
  keep, sort,
}
use ants.Domain.Errors.{Result, ok, err, ◌>>=◌, ◌>>◌, refuse_if, invalidf, conflictf, not_foundf}
use ants.Domain.Run.{Run}
use ants.Store.Assoc.{Assoc, lookup, put}
use ants.Store.Rows.{Rows, Versioned, has, values, find_own, update_row}
use ants.Store.Page.{collect_below}
use ants.Store.Threads.{has_thread}
use ants.Store.Database.{Database, IdemKey, find_idem}

abbrev pub run_rows : Rows Run
run_rows = record {
  key = λ (r : Run). r.id;
  tenant_of = λ (r : Run). r.tenant_id;
  missing = "run_not_found";
}

abbrev pub versioned_runs : Versioned Run
versioned_runs = record {
  rows = run_rows;
  version_of = λ (r : Run). r.version;
  with_version = λ v (r : Run). record r { version = v };
}

-- An entry that a map does not have reads as 0.
abbrev or_zero : Option Int64 → Int64
or_zero none = 0
or_zero (some n) = n

unfoldable pub last_seq : (thread_id : Text) → Database → Int64
last_seq thread_id db = or_zero (lookup thread_id db.run_seqs)

abbrev pub idem_key : Run → IdemKey
idem_key r = record { tenant = r.tenant_id; thread = r.thread_id; key = r.idempotency_key }

-- `create` behind its checks.
unfoldable pub insert_run : Run → Database → Database × Run
unfolding last_seq
insert_run run db =
    let stored = record run { seq = inc (last_seq run.thread_id db) } in
    (
      record db {
        run_seqs = put run.thread_id stored.seq db.run_seqs;
        run_idem_keys = (idem_key run, run.id) ∷ db.run_idem_keys;
        runs = put run.id stored db.runs;
      },
      stored,
    )

unfoldable pub create : Run → Database → Result (Database × Run)
create run db = do
  refuse_if (not (has_thread run.tenant_id run.thread_id db)) (invalidf "run_thread_unknown")
  refuse_if (has (find_idem (idem_key run) db.run_idem_keys))
      (conflictf "run_idempotency_key_taken")
  refuse_if (has (lookup run.id db.runs)) (conflictf "run_exists")
  ok (insert_run run db)

unfoldable pub get : (tenant_id id : Text) → Database → Result Run
get tenant_id id db = find_own run_rows tenant_id id db.runs

unfoldable pub update : Run → (expected_version : Int64) → Database → Result (Database × Run)
update run expected_version db = do
  (runs, stored) ← update_row versioned_runs run expected_version db.runs
  ok (record db { runs = runs }, stored)

abbrev pub is_of : (tenant_id thread_id : Text) → Run → Bool
is_of tenant_id thread_id r = text_eq r.thread_id thread_id && text_eq r.tenant_id tenant_id

-- The run that an idempotency key names: a key whose run is not the thread's is not found either.
abbrev own_run : (tenant_id thread_id : Text) → Option Run → Result Run
own_run tenant_id thread_id none = err (not_foundf "run_not_found")
own_run tenant_id thread_id (some r) = do
  refuse_if (not (text_eq r.tenant_id tenant_id) || not (text_eq r.thread_id thread_id))
      (not_foundf "run_not_found")
  ok r

unfoldable pub get_by_idempotency_key : (tenant_id thread_id key : Text) → Database → Result Run
get_by_idempotency_key tenant_id thread_id key db =
    elim (find_idem (record { tenant = tenant_id; thread = thread_id; key = key })
      db.run_idem_keys) [
        | none ↦ err (not_foundf "run_not_found")
        | some id ↦ own_run tenant_id thread_id (lookup id db.runs)
      ]

-- The runs of a thread, oldest first.
unfoldable pub owned_runs : (tenant_id thread_id : Text) → Database → List Run
owned_runs tenant_id thread_id db =
    sort (λ (r s : Run). slt r.seq s.seq) (keep (is_of tenant_id thread_id) (values db.runs))

unfoldable pub list_by_thread :
    (tenant_id thread_id : Text) (after limit : Int64) → Database → Result (List Run × Int64)
list_by_thread tenant_id thread_id after limit db = do
  refuse_if (not (has_thread tenant_id thread_id db)) (not_foundf "thread_not_found")
  let owned = owned_runs tenant_id thread_id db
  ok (collect_below (λ (r : Run). slt after r.seq) limit 0 owned, length owned)
