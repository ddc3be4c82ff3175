-- ===== src/Store/Runs/History.antt =====
-- internal/store/memory/runs.go, ListByThread: the history of a thread, page by page.
use ants.Prelude.{
  ◌⊎◌, ◌&&◌, false, slt, IsIn, ℕ, ◌≡◌, ◌≢◌, ◌<◌, arith, Bool, true, some, List, Text, text_eq,
  Int64, word_mod, length, All,
}
use ants.Domain.Errors.{ok}
use ants.Domain.Run.{Run}
use ants.Store.Assoc.{Assoc, lookup}
use ants.Store.Assoc.Unique.{IsEntryOf}
use ants.Store.Page.Cut.{first_of, collect-eq}
use ants.Store.Page.Resume.{IsAscending, behind}
use ants.Store.Threads.{has_thread}
use ants.Store.Database.{Database}
use ants.Store.Runs.{is_of, owned_runs, list_by_thread}
use ants.Store.Runs.Numbered.{IsNumbered}

abbrev pub seq_of : Run → Int64
seq_of r = r.seq

module _ (n : ℕ) (db : Database) (w : IsNumbered n db) (tenant_id thread_id : Text) where
  -- A row of the rest of the map, against the first one.
  abbrev InRest : Assoc Run → Text × Run → Type 0
  InRest m row = IsEntryOf db.runs row × IsEntryOf m row

  abbrev IsApart : Run → Text × Run → Type 0
  IsApart v row = is_of tenant_id thread_id row.1 ≡ true → v.seq ≢ row.1.seq

-- A page of the listing, as the first runs behind the cursor, and the number of runs in all.
pub list_by_thread-eq :
    (tenant_id thread_id : Text) (after limit : Int64) (db : Database)
    → limit < word_mod
    → has_thread tenant_id thread_id db ≡ true
    → list_by_thread tenant_id thread_id after limit db
      ≡ ok (
        first_of (behind seq_of after) limit (owned_runs tenant_id thread_id db),
        length (owned_runs tenant_id thread_id db),
      )
unfolding list_by_thread
list_by_thread-eq tenant_id thread_id after limit db b h =
    ground
      (arith, h, (collect-eq (behind seq_of after) limit (owned_runs tenant_id thread_id db) b).1)

-- The runs that a listing is to have: those of the thread behind the cursor.
abbrev pub is_wanted : (tenant_id thread_id : Text) → (after : Int64) → Run → Bool
is_wanted tenant_id thread_id after r =
    text_eq r.tenant_id tenant_id && (text_eq r.thread_id thread_id && slt after r.seq)

-- The runs are in the strict order of their numbers; each is a stored run of the thread behind the
-- cursor, and each such run of the store is among them.
abbrev pub HasExactly :
    (tenant_id thread_id : Text) → (after : Int64) → Database → List Run → Type 0
HasExactly tenant_id thread_id after db runs =
    IsAscending seq_of runs
    × All
        (λ (r : Run).
          (lookup r.id db.runs ≡ some r) × (is_wanted tenant_id thread_id after r ≡ true))
        runs
    × All
        (λ (row : Text × Run).
          (is_wanted tenant_id thread_id after row.1 ≡ false) ⊎ IsIn row.1 runs)
        db.runs
