-- ===== src/Store/Runs/Updated.antt =====
-- internal/store/memory/runs.go: an update keeps runs numbered.
use ants.Prelude.{
  ℕ, ◌≡◌, refl, sym, ap, subst, ◌∙◌, arith, some, Text, text_eq, text_eq→eq, inc, Bool-cases, inl,
  inr,
}
use ants.Domain.Run.{Run}
use ants.Store.Assoc.{lookup, put}
use ants.Store.Assoc.Laws.{lookup-put}
use ants.Store.Assoc.Unique.{put-IsUnique}
use ants.Store.Database.{Database, find_idem}
use ants.Store.Runs.{last_seq, idem_key}
use ants.Store.Runs.Numbered.{KeepsPlace, IsNumbered}

module _ (n : ℕ) (r r' cur : Run) (db : Database) (old : IsNumbered n db)
    (at : lookup r.id db.runs ≡ some cur) (keeps : KeepsPlace r db)
    (told : r' ≡ record r { version = inc cur.version }) where
  -- Every row of the new state has the place of one of the old state, under the same identifier.
  abbrev HasOld : Text → Run → Type 0
  HasOld id s =
      (t : Run) × (lookup id db.runs ≡ some t)
      × (s.thread_id ≡ t.thread_id)
      × (s.seq ≡ t.seq)
      × (idem_key s ≡ idem_key t)
      × (s.id ≡ id)

  written : HasOld r.id r'
  written =
      let (tenant, thread, key, seq) = keeps cur at in
      subst (HasOld r.id) (sym told) (cur, at, thread, seq, cc (tenant, thread, key), refl)

  found_old : (id : Text) (s : Run) → lookup id (put r.id r' db.runs) ≡ some s → HasOld id s
  found_old id s h = elim (Bool-cases (text_eq r.id id)) [
    | inl e ↦
        let same = text_eq→eq r.id id e in
        let stored : r' ≡ s = ground (arith, h, e, lookup-put r.id id r' db.runs) in
        subst (HasOld id) stored (subst (λ k. HasOld k r') same written)
    | inr e ↦
        let before : lookup id db.runs ≡ some s =
          ground (arith, h, e, lookup-put r.id id r' db.runs) in
        let (named, positive, handed_out, indexed) = old.placed id s before in
        (s, before, refl, refl, refl, named)
  ]

  pub update-IsNumbered : IsNumbered n (record db { runs = put r.id r' db.runs })
  unfolding last_seq
  update-IsNumbered = record {
    unique = put-IsUnique r.id r' db.runs old.unique;
    counted = old.counted;
    placed = λ id s h.
        let (t, at_t, thread, seq, key, named) = found_old id s h in
        let (named_t, positive, handed_out, indexed) = old.placed id t at_t in
        (
          named,
          omega (arith, positive, seq),
          omega (arith, handed_out, seq, ap (λ x. last_seq x db) thread),
          ap (λ k. find_idem k db.run_idem_keys) key ∙ indexed,
        );
    distinct = λ i j s t h k same_thread same_seq.
        let (s₀, at_s, thread_s, seq_s, key_s, named_s) = found_old i s h in
        let (t₀, at_t, thread_t, seq_t, key_t, named_t) = found_old j t k in
        old.distinct i j s₀ t₀ at_s at_t (sym thread_s ∙ same_thread ∙ thread_t)
          (sym seq_s ∙ same_seq ∙ seq_t);
  }
