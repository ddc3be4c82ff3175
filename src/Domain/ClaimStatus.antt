-- ===== src/Domain/ClaimStatus.antt =====
-- internal/domain/runclaim.go: whether a run is claimed, and the transitions between them.
use ants.Prelude.{ℕ, ◌≡◌, ◌↔◌, Bool, true, List, [], ◌∷◌, arith, ◌==◌}
use ants.Domain.States.{Eq, Table, allows}

pub data ClaimStatus : Type 0 where
  runnable claimed : ClaimStatus

abbrev index : ClaimStatus → ℕ
index runnable = 0
index claimed = 1

abbrev pub eq : ClaimStatus → ClaimStatus → Bool
eq s t = index s == index t

pub eq_iff : (s t : ClaimStatus) → (eq s t ≡ true) ↔ (s ≡ t)
eq_iff s t = ground arith

instance abbrev pub status_eq : Eq ClaimStatus
status_eq = record { eq = eq; eq_iff = eq_iff }

abbrev pub statuses : List ClaimStatus
statuses = runnable ∷ claimed ∷ []

abbrev pub transitions : Table ClaimStatus
transitions = (runnable, claimed ∷ []) ∷ (claimed, runnable ∷ []) ∷ []

unfoldable pub can_transition : ClaimStatus → ClaimStatus → Bool
unfolding allows
can_transition from to = allows transitions from to
