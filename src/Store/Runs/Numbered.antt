-- ===== src/Store/Runs/Numbered.antt =====
-- internal/store/memory/runs.go: what holds of the numbers and keys of runs, and what a successful
-- creation or update has found.
use ants.Prelude.{
  ℕ, ◌≡◌, ◌≤◌, refl, arith, true, none, some, Text, Int64, inc, Bool-cases, Option-cases, inl, inr,
}
use ants.Domain.Errors.{ok, Result-cases}
use ants.Domain.Run.{Run}
use ants.Store.Assoc.{lookup, put}
use ants.Store.Assoc.Unique.{IsUnique}
use ants.Store.Rows.{update_row}
use ants.Store.Rows.Versions.{IsLawful, update_row-ok}
use ants.Store.Threads.{has_thread}
use ants.Store.Database.{Database, find_idem}
use ants.Store.Runs.{versioned_runs, last_seq, idem_key, insert_run, create, update}

-- A caller updates a run that it has read: what places the run in its thread is as it was. The
-- domain's operations never write these fields.
abbrev pub KeepsPlace : Run → Database → Type 0
KeepsPlace r db =
    (cur : Run)
    → lookup r.id db.runs ≡ some cur
    → (r.tenant_id ≡ cur.tenant_id)
      × (r.thread_id ≡ cur.thread_id)
      × (r.idempotency_key ≡ cur.idempotency_key)
      × (r.seq ≡ cur.seq)

-- A stored run stands under its identifier, bears a number that its thread has handed out, and is
-- the one that its idempotency key names.
abbrev pub IsPlaced : Database → Text → Run → Type 0
IsPlaced db id r =
    (r.id ≡ id)
    × (1 ≤ r.seq)
    × (r.seq ≤ last_seq r.thread_id db)
    × (find_idem (idem_key r) db.run_idem_keys ≡ some id)

pub record IsNumbered (n : ℕ) (db : Database) : Type 0 where
  pub unique : IsUnique db.runs
  pub counted : (thread : Text) → last_seq thread db ≤ n
  pub placed : (id : Text) (r : Run) → lookup id db.runs ≡ some r → IsPlaced db id r
  pub distinct :
      (i j : Text) (r s : Run)
      → lookup i db.runs ≡ some r
      → lookup j db.runs ≡ some s
      → r.thread_id ≡ s.thread_id
      → r.seq ≡ s.seq
      → i ≡ j

pub versioned_runs-IsLawful : IsLawful versioned_runs
versioned_runs-IsLawful = record {
  version_kept = λ v e. refl;
  key_kept = λ v e. refl;
  tenant_kept = λ v e. refl;
}

-- What a creation has found and leaves.
pub create-ok :
    (r : Run) (db db' : Database) {r' : Run}
    → create r db ≡ ok (db', r')
    → (find_idem (idem_key r) db.run_idem_keys ≡ none)
      × (lookup r.id db.runs ≡ none)
      × (has_thread r.tenant_id r.thread_id db ≡ true)
      × ((db', r') ≡ insert_run r db)
unfolding create
create-ok r db db' {r'} h = elim (Bool-cases (has_thread r.tenant_id r.thread_id db)) [
  | inr t ↦ cc (h, t)
  | inl t ↦ elim (Option-cases (find_idem (idem_key r) db.run_idem_keys)) [
    | inr (id, k) ↦ cc (h, t, k)
    | inl k ↦ elim (Option-cases (lookup r.id db.runs)) [
      | inr (cur, l) ↦ cc (h, t, k, l)
      | inl l ↦ (k, l, t, ground (arith, h, t, k, l))
    ]
  ]
]

pub update-ok :
    (r : Run) (v : Int64) (db db' : Database) {r' : Run}
    → update r v db ≡ ok (db', r')
    → (cur : Run) × (lookup r.id db.runs ≡ some cur)
      × (cur.version ≡ v)
      × (r' ≡ record r { version = inc v })
      × (db' ≡ record db { runs = put r.id r' db.runs })
unfolding update
update-ok r v db db' {r'} h = elim (Result-cases (update_row versioned_runs r v db.runs)) [
  | inr (x, e) ↦ cc (h, e)
  | inl ((m, stored), e) ↦
      let (cur, at, same, own, told, wrote) =
        update_row-ok versioned_runs versioned_runs-IsLawful r v db.runs m stored e in
      (cur, at, same, ground (arith, h, e, told), ground (arith, h, e, told, wrote))
]
