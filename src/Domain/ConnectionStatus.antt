-- ===== src/Domain/ConnectionStatus.antt =====
-- internal/domain/integration.go: the stages of an integration connection, and the transitions between them.
use ants.Prelude.{ℕ, ◌≡◌, ◌↔◌, Bool, true, List, [], ◌∷◌, arith, ◌==◌}
use ants.Domain.States.{Eq, Table, allows}

pub data ConnectionStatus : Type 0 where
  pending connected errored revoked : ConnectionStatus

abbrev index : ConnectionStatus → ℕ
index pending = 0
index connected = 1
index errored = 2
index revoked = 3

abbrev pub eq : ConnectionStatus → ConnectionStatus → Bool
eq s t = index s == index t

pub eq_iff : (s t : ConnectionStatus) → (eq s t ≡ true) ↔ (s ≡ t)
eq_iff s t = ground arith

instance abbrev pub status_eq : Eq ConnectionStatus
status_eq = record { eq = eq; eq_iff = eq_iff }

abbrev pub statuses : List ConnectionStatus
statuses = pending ∷ connected ∷ errored ∷ revoked ∷ []

abbrev pub transitions : Table ConnectionStatus
transitions =
    (pending, connected ∷ errored ∷ [])
    ∷ (connected, errored ∷ revoked ∷ [])
    ∷ (errored, connected ∷ revoked ∷ [])
    ∷ (revoked, [])
    ∷ []

unfoldable pub can_transition : ConnectionStatus → ConnectionStatus → Bool
unfolding allows
can_transition from to = allows transitions from to
