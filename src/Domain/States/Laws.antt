-- ===== src/Domain/States/Laws.antt =====
-- internal/domain/states.go: transition tables and moves.
use ants.Prelude.{◌≡◌, ◌↔◌, ◌≢◌, ◌⊎◌, Bool, true, List, [], ◌∷◌, all, arith}
use ants.Domain.Errors.{ok, err, bad_transition}
use ants.Domain.States.{
  Eq, Table, edges_from, contains, allows, sources, edges_known, check_table, move,
}

module _ {S : Type 0} ⦃e : Eq S⦄ where
  contains_of_all :
      (states xs : List S) (s : S)
      → all (contains states) xs ≡ true
      → contains xs s ≡ true
      → contains states s ≡ true
  unfolding contains
  contains_of_all states [] s h k = cc
  contains_of_all states (x ∷ xs) s h k = ground (arith, e.eq_iff x s, contains_of_all states xs s)

  edges_known-lem :
      (states : List S) (t : Table S) (from to : S)
      → edges_known states t ≡ true
      → contains (edges_from t from) to ≡ true
      → (contains states from ≡ true) × (contains states to ≡ true)
  unfolding edges_known edges_from contains
  edges_known-lem states [] from to h k = cc
  edges_known-lem states ((s, targets) ∷ t) from to h k =
      ground (
        arith,
        e.eq_iff s from,
        contains_of_all states targets to,
        edges_known-lem states t from to,
      )

  -- In a table that passes the check each edge goes from a declared state to a declared state, and
  -- the table has an entry for its end.
  pub check_table_sound :
      (states : List S) (t : Table S) (from to : S)
      → check_table states t ≡ true
      → allows t from to ≡ true
      → (contains states from ≡ true)
        × (contains states to ≡ true)
        × (contains (sources t) to ≡ true)
  unfolding check_table allows
  check_table_sound states t from to h k =
      let (known_from, known_to) = edges_known-lem states t from to (ground (arith, h)) k in
      (known_from, known_to, contains_of_all (sources t) states to (ground (arith, h)) known_to)

  -- A move succeeds exactly along an edge to another state, and ends there.
  pub move-ok_iff :
      (can : S → S → Bool) (from next s : S)
      → (move can from next ≡ ok s) ↔ ((s ≡ next) × (from ≢ next) × (can from next ≡ true))
  unfolding move
  move-ok_iff can from next s = ground (arith, e.eq_iff from next)

  -- A move that is refused is an invalid transition.
  pub move-err :
      (can : S → S → Bool) (from next : S)
      → (move can from next ≡ ok next) ⊎ (move can from next ≡ err bad_transition)
  unfolding move
  move-err can from next = ground arith
