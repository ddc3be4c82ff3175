-- ===== src/Domain/DeliveryStatus.antt =====
-- internal/domain/outbox.go: the delivery of an outbox message, and the transitions between them.
use ants.Prelude.{ℕ, ◌≡◌, ◌↔◌, Bool, true, List, [], ◌∷◌, arith, ◌==◌}
use ants.Domain.States.{Eq, Table, allows}

pub data DeliveryStatus : Type 0 where
  pending leased delivered dead discarded : DeliveryStatus

abbrev index : DeliveryStatus → ℕ
index pending = 0
index leased = 1
index delivered = 2
index dead = 3
index discarded = 4

abbrev pub eq : DeliveryStatus → DeliveryStatus → Bool
eq s t = index s == index t

pub eq_iff : (s t : DeliveryStatus) → (eq s t ≡ true) ↔ (s ≡ t)
eq_iff s t = ground arith

instance abbrev pub status_eq : Eq DeliveryStatus
status_eq = record { eq = eq; eq_iff = eq_iff }

abbrev pub statuses : List DeliveryStatus
statuses = pending ∷ leased ∷ delivered ∷ dead ∷ discarded ∷ []

abbrev pub transitions : Table DeliveryStatus
transitions =
    (pending, leased ∷ [])
    ∷ (leased, delivered ∷ pending ∷ dead ∷ [])
    ∷ (delivered, [])
    ∷ (dead, pending ∷ discarded ∷ [])
    ∷ (discarded, [])
    ∷ []

unfoldable pub can_transition : DeliveryStatus → DeliveryStatus → Bool
unfolding allows
can_transition from to = allows transitions from to
