-- ===== src/Store/Runs/Created.antt =====
-- internal/store/memory/runs.go: a creation keeps runs numbered.
use ants.Prelude.{
  ℕ, suc, ◌≡◌, ◌≢◌, ◌≤◌, ◌<◌, refl, sym, ap, subst, ◌∙◌, arith, true, none, some, Text, text_eq,
  text_eq_iff, inc, word_mod, Bool-cases, inl, inr, ◌⊎◌, if◌then◌else◌,
}
use ants.Domain.Run.{Run}
use ants.Store.Assoc.{lookup}
use ants.Store.Assoc.Laws.{lookup-put}
use ants.Store.Assoc.Unique.{put-IsUnique}
use ants.Store.Database.{Database, IdemKey, idem_eq, find_idem}
use ants.Store.Runs.{last_seq, idem_key, insert_run}
use ants.Store.Runs.Numbered.{IsPlaced, IsNumbered}

idem_eq→eq : (a b : IdemKey) → idem_eq a b ≡ true → a ≡ b
unfolding idem_eq
idem_eq→eq a b h = ground (
  arith,
  h,
  text_eq_iff a.tenant b.tenant,
  text_eq_iff a.thread b.thread,
  text_eq_iff a.key b.key,
)

idem_eq_refl : (a : IdemKey) → idem_eq a a ≡ true
unfolding idem_eq
idem_eq_refl a =
    ground
      (arith, text_eq_iff a.tenant a.tenant, text_eq_iff a.thread a.thread, text_eq_iff a.key a.key)

-- The state that a creation leaves.
abbrev pub with_run : Run → Database → Database
with_run r db = (insert_run r db).0

abbrev placed_run : Run → Database → Run
placed_run r db = record r { seq = inc (last_seq r.thread_id db) }

last_seq-with_run :
    (r : Run) (db : Database) (thread : Text)
    → last_seq thread (with_run r db)
      ≡ (if text_eq r.thread_id thread then inc (last_seq r.thread_id db) else last_seq thread db)
unfolding last_seq insert_run
last_seq-with_run r db thread =
    ground (arith, lookup-put r.thread_id thread (inc (last_seq r.thread_id db)) db.run_seqs)

lookup-with_run :
    (r : Run) (db : Database) (id : Text)
    → lookup id (with_run r db).runs
      ≡ (if text_eq r.id id then some (placed_run r db) else lookup id db.runs)
unfolding insert_run
lookup-with_run r db id = lookup-put r.id id (placed_run r db) db.runs

find_idem-with_run :
    (r : Run) (db : Database) (k : IdemKey)
    → find_idem k (with_run r db).run_idem_keys
      ≡ (if idem_eq (idem_key r) k then some r.id else find_idem k db.run_idem_keys)
unfolding insert_run find_idem
find_idem-with_run r db k = refl

module _ (n : ℕ) (r : Run) (db : Database) (bound : suc n < word_mod) (old : IsNumbered n db)
    (free : find_idem (idem_key r) db.run_idem_keys ≡ none)
    (absent : lookup r.id db.runs ≡ none) where
  with_run-counted : (thread : Text) → last_seq thread (with_run r db) ≤ suc n
  with_run-counted thread =
      ground (arith, last_seq-with_run r db thread, old.counted thread, old.counted r.thread_id)

  grows : (thread : Text) → last_seq thread db ≤ last_seq thread (with_run r db)
  grows thread =
      ground
        (arith, last_seq-with_run r db thread, text_eq_iff r.thread_id thread, old.counted thread)

  -- A row of the new state is the new run or an old one.
  row-cases :
      (id : Text) (s : Run)
      → lookup id (with_run r db).runs ≡ some s
      → ((r.id ≡ id) × (s ≡ placed_run r db)) ⊎ (lookup id db.runs ≡ some s)
  row-cases id s h = ground (arith, h, lookup-with_run r db id, text_eq_iff r.id id)

  old_key :
      (s : Run) {id : Text}
      → find_idem (idem_key s) db.run_idem_keys ≡ some id
      → find_idem (idem_key s) (with_run r db).run_idem_keys ≡ some id
  old_key s {id} h = elim (Bool-cases (idem_eq (idem_key r) (idem_key s))) [
    | inl e ↦
        let same = idem_eq→eq (idem_key r) (idem_key s) e in
        cc (h, ap (λ k. find_idem k db.run_idem_keys) same, free)
    | inr e ↦ ground (arith, e, h, find_idem-with_run r db (idem_key s))
  ]

  with_run-IsPlaced :
      (id : Text) (s : Run)
      → lookup id (with_run r db).runs ≡ some s
      → IsPlaced (with_run r db) id s
  with_run-IsPlaced id s h = elim (row-cases id s h) [
    | inl (e, k) ↦ subst (IsPlaced (with_run r db) id) (sym k) (
      e,
      ground (arith, old.counted r.thread_id),
      ground (arith, last_seq-with_run r db r.thread_id, text_eq_iff r.thread_id r.thread_id),
      ground (arith, e, find_idem-with_run r db (idem_key r), idem_eq_refl (idem_key r)),
    )
    | inr k ↦
        let (named, positive, handed_out, indexed) = old.placed id s k in
        (named, positive, omega (arith, handed_out, grows s.thread_id), old_key s indexed)
  ]

  not_new :
      (t : Run) (j : Text)
      → lookup j db.runs ≡ some t
      → r.thread_id ≡ t.thread_id
      → inc (last_seq r.thread_id db) ≢ t.seq
  not_new t j v same k =
      let (named, positive, handed_out, indexed) = old.placed j t v in
      omega (arith, k, handed_out, old.counted r.thread_id, ap (λ x. last_seq x db) same)

  with_run-distinct :
      (i j : Text) (s t : Run)
      → lookup i (with_run r db).runs ≡ some s
      → lookup j (with_run r db).runs ≡ some t
      → s.thread_id ≡ t.thread_id
      → s.seq ≡ t.seq
      → i ≡ j
  with_run-distinct i j s t h k same_thread same_seq = elim (row-cases i s h) [
    | inl (e, u) ↦ elim (row-cases j t k) [
      | inl (f, v) ↦ sym e ∙ f
      | inr v ↦ absurd (
          not_new t j v (ap (λ (x : Run). x.thread_id) (sym u) ∙ same_thread)
            (ap (λ (x : Run). x.seq) (sym u) ∙ same_seq))
    ]
    | inr u ↦ elim (row-cases j t k) [
      | inl (f, v) ↦ absurd (
          not_new s i u (ap (λ (x : Run). x.thread_id) (sym v) ∙ sym same_thread)
            (ap (λ (x : Run). x.seq) (sym v) ∙ sym same_seq))
      | inr v ↦ old.distinct i j s t u v same_thread same_seq
    ]
  ]

  pub with_run-IsNumbered : IsNumbered (suc n) (with_run r db)
  unfolding insert_run
  with_run-IsNumbered = record {
    unique = put-IsUnique r.id (placed_run r db) db.runs old.unique;
    counted = with_run-counted;
    placed = with_run-IsPlaced;
    distinct = with_run-distinct;
  }
