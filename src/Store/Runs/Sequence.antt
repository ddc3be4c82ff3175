-- ===== src/Store/Runs/Sequence.antt =====
-- internal/store/memory/runs.go: sequence numbers and idempotency keys over a history of calls.
use ants.Prelude.{
  ℕ, suc, ◌≡◌, ◌≢◌, ◌<◌, sym, ap, subst, ◌∙◌, arith, some, [], Text, Int64, inc, word_mod,
}
use ants.Domain.Errors.{ok}
use ants.Domain.Run.{Run}
use ants.Store.Assoc.{lookup}
use ants.Store.Assoc.Unique.{IsUnique}
use ants.Store.Database.{Database}
use ants.Store.Runs.{last_seq, create, update, or_zero}
use ants.Store.Runs.Numbered.{KeepsPlace, IsNumbered, create-ok, update-ok}
use ants.Store.Runs.Created.{with_run-IsNumbered}
use ants.Store.Runs.Updated.{update-IsNumbered}

-- The states that creations and updates reach from a store without runs, and in how many steps.
pub data Reaches : ℕ → Database → Type 0 where
  start : (db : Database) → db.runs ≡ [] → db.run_idem_keys ≡ [] → db.run_seqs ≡ [] → Reaches 0 db
  created :
      {n : ℕ} {db db' : Database} (r r' : Run)
      → Reaches n db
      → create r db ≡ ok (db', r')
      → Reaches (suc n) db'
  updated :
      {n : ℕ} {db db' : Database} (r r' : Run) (v : Int64)
      → Reaches n db
      → KeepsPlace r db
      → update r v db ≡ ok (db', r')
      → Reaches (suc n) db'

weaken : (n : ℕ) (db : Database) → IsNumbered n db → IsNumbered (suc n) db
weaken n db w = record {
  unique = w.unique;
  counted = λ th. omega (arith, w.counted th);
  placed = w.placed;
  distinct = w.distinct;
}

empty-IsNumbered : (db : Database) → db.runs ≡ [] → db.run_seqs ≡ [] → IsNumbered 0 db
unfolding lookup last_seq
empty-IsNumbered db no_runs no_seqs = record {
  unique = subst IsUnique (sym no_runs) tt;
  counted = λ th. omega (arith, ap (λ m. or_zero (lookup th m)) no_seqs);
  placed = λ id r h. absurd (none_there id r h);
  distinct = λ i j r s h k e f. absurd (none_there i r h);
}
  where
    none_there : (id : Text) (r : Run) → lookup id db.runs ≢ some r
    none_there id r h = cc (h, ap (λ m. lookup id m) no_runs)

-- However runs are created and updated by callers that leave a run in its place: no two runs of a
-- thread share a sequence number, every number is one that the thread has handed out, and a run is
-- the one that its idempotency key names, so that no other run of the thread bears its key. There
-- were fewer than 2 ^ 64 steps, so that no counter has wrapped.
pub reached-IsNumbered : (n : ℕ) (db : Database) → Reaches n db → n < word_mod → IsNumbered n db
reached-IsNumbered n db (start _ no_runs no_keys no_seqs) b = empty-IsNumbered db no_runs no_seqs
reached-IsNumbered n db (created {n = k} {db = db₀} r r' before done) b =
    let (free, absent, known, same) = create-ok r db₀ db done in
    subst (IsNumbered (suc k)) (sym (ap (λ (x : Database × Run). x.0) same)) (
      with_run-IsNumbered k r db₀ b (reached-IsNumbered k db₀ before (omega (arith, b))) free
        absent)
reached-IsNumbered n db (updated {n = k} {db = db₀} r r' v before keeps done) b =
    let (cur, at, version, told, same) = update-ok r v db₀ db done in
    subst (IsNumbered (suc k)) (sym same) (
      weaken k _ (
        update-IsNumbered k r r' cur db₀ (reached-IsNumbered k db₀ before (omega (arith, b))) at
          keeps (told ∙ ap (λ w. record r { version = inc w }) (sym version))))
