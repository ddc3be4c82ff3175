-- ===== src/Store/Threads.antt =====
-- internal/store/memory/threads.go, ThreadRepository. A row that is created, updated or appended is
-- answered as the caller's object then stands.
pub mod Messages
use ants.Prelude.{
  Bool, true, false, not, ◌||◌, Option, none, some, List, [], ◌∷◌, ◌++◌, Text, text_eq, text_lt,
  ◌==◌, Int64, slt, is_pos, inc, length, keep, take, sort, ltb, ◌+◌, ◌%◌, word_mod, if◌then◌else◌,
}
use ants.Domain.Errors.{Result, ok, ◌>>=◌, ◌>>◌, refuse_if, invalidf, conflictf, not_foundf}
use ants.Domain.Tenant.{Project}
use ants.Domain.Thread.{Thread, Message}
use ants.Store.Assoc.{Assoc, lookup, put}
use ants.Store.Rows.{Rows, Versioned, has, values, find_own, update_row}
use ants.Store.Page.{collect}
use ants.Store.Database.{Database}

abbrev pub thread_rows : Rows Thread
thread_rows = record {
  key = λ (t : Thread). t.id;
  tenant_of = λ (t : Thread). t.tenant_id;
  missing = "thread_not_found";
}

abbrev pub versioned_threads : Versioned Thread
versioned_threads = record {
  rows = thread_rows;
  version_of = λ (t : Thread). t.version;
  with_version = λ v (t : Thread). record t { version = v };
}

-- Whether the thread is there and is the tenant's.
abbrev owns : Option Thread → (tenant_id : Text) → Bool
owns none tenant_id = false
owns (some t) tenant_id = text_eq t.tenant_id tenant_id

unfoldable pub has_thread : (tenant_id thread_id : Text) → Database → Bool
has_thread tenant_id thread_id db = owns (lookup thread_id db.threads) tenant_id

abbrev owns_project : Option Project → (tenant_id : Text) → Bool
owns_project none tenant_id = false
owns_project (some p) tenant_id = text_eq p.tenant_id tenant_id

unfoldable pub create : Thread → Database → Result Database
create thread db = do
  refuse_if (not (owns_project (lookup thread.project_id db.projects) thread.tenant_id))
      (invalidf "thread_project_unknown")
  refuse_if (has (lookup thread.id db.threads)) (conflictf "thread_exists")
  ok (record db { threads = put thread.id thread db.threads })

unfoldable pub get : (tenant_id id : Text) → Database → Result Thread
get tenant_id id db = find_own thread_rows tenant_id id db.threads

unfoldable pub update : Thread → (expected_version : Int64) → Database → Result (Database × Thread)
update thread expected_version db = do
  (threads, stored) ← update_row versioned_threads thread expected_version db.threads
  ok (record db { threads = threads }, stored)

-- An entry that the map does not have reads as no messages.
abbrev pub or_nil : Option (List Message) → List Message
or_nil none = []
or_nil (some ms) = ms

unfoldable pub messages_of : (thread_id : Text) → Database → List Message
messages_of thread_id db = or_nil (lookup thread_id db.messages)

unfoldable pub append_message : Message → Database → Result (Database × Message)
append_message message db = do
  refuse_if (not (has_thread message.tenant_id message.thread_id db))
      (not_foundf "thread_not_found")
  let all = messages_of message.thread_id db
  let stored = record message { seq = (length all + 1) % word_mod }
  ok (record db { messages = put message.thread_id (all ++ stored ∷ []) db.messages }, stored)

unfoldable pub messages :
    (tenant_id thread_id : Text) (after_seq limit : Int64)
    → Database
    → Result (List Message × Int64)
messages tenant_id thread_id after_seq limit db = do
  refuse_if (not (has_thread tenant_id thread_id db)) (not_foundf "thread_not_found")
  let all = messages_of thread_id db
  ok (collect (λ (m : Message). slt after_seq m.seq) limit 0 all, length all)

-- The order of the listing: the thread that was updated last comes first.
abbrev pub thread_before : Thread → Thread → Bool
thread_before t u =
    if t.updated_at == u.updated_at then text_lt t.id u.id else ltb u.updated_at t.updated_at

-- `out[:limit]`, where there is a limit.
abbrev cut : (limit : Int64) → List Thread → List Thread
cut limit out = if is_pos limit then take limit out else out

unfoldable pub list_by_tenant : (tenant_id : Text) (limit : Int64) → Database → List Thread
list_by_tenant tenant_id limit db =
    cut limit (
      sort thread_before (keep (λ (t : Thread). text_eq t.tenant_id tenant_id) (values db.threads)))
