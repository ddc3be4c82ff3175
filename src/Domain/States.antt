-- ===== src/Domain/States.antt =====
-- internal/domain/states.go: transition tables, and the check that `init` makes of each. `move` is
-- what the `TransitionTo` methods of the entities have in common.
pub mod Laws
use ants.Prelude.{
  ◌≡◌, ◌↔◌, Bool, true, false, not, ◌&&◌, ◌||◌, List, [], ◌∷◌, map, all, if◌then◌else◌,
}
use ants.Domain.Errors.{Result, ok, err, ◌>>=◌, ◌>>◌, refuse_if, bad_transition}

-- `==` on a type of states.
pub record Eq {ℓ} (A : Type ℓ) : Type ℓ where
  pub eq : A → A → Bool
  pub eq_iff : (a b : A) → (eq a b ≡ true) ↔ (a ≡ b)

-- A Go map from states to the states that may follow, as its entries.
abbrev pub Table : Type 0 → Type 0
Table S = List (S × List S)

module _ {S : Type 0} ⦃e : Eq S⦄ where
  -- `t[from]`: no entry is the empty list.
  unfoldable pub edges_from : Table S → S → List S
  edges_from [] from = []
  edges_from ((s, targets) ∷ t) from = if e.eq s from then targets else edges_from t from

  unfoldable pub contains : List S → S → Bool
  contains [] s = false
  contains (x ∷ xs) s = e.eq x s || contains xs s

  unfoldable pub allows : Table S → S → S → Bool
  unfolding edges_from contains
  allows t from to = contains (edges_from t from) to

  -- No source and no target outside the declared states, and an entry for each state.
  pub sources : Table S → List S
  sources [] = []
  sources ((s, targets) ∷ t) = s ∷ sources t

  edges_known : List S → Table S → Bool
  unfolding contains
  edges_known states [] = true
  edges_known states ((s, targets) ∷ t) =
      contains states s && (all (contains states) targets && edges_known states t)

  unfoldable pub check_table : List S → Table S → Bool
  unfolding contains sources edges_known
  check_table states t = edges_known states t && all (contains (sources t)) states

  -- The guards of `TransitionTo`: a change, along an edge.
  unfoldable pub move : (S → S → Bool) → S → S → Result S
  move can from next = do
    refuse_if (e.eq from next) bad_transition
    refuse_if (not (can from next)) bad_transition
    ok next
