-- ===== src/Domain/SpecStatus.antt =====
-- internal/domain/spec.go: the approval of a specification, and the transitions between them.
use ants.Prelude.{ℕ, ◌≡◌, ◌↔◌, Bool, true, List, [], ◌∷◌, arith, ◌==◌}
use ants.Domain.States.{Eq, Table, allows}

pub data SpecStatus : Type 0 where
  draft approved rejected superseded : SpecStatus

abbrev index : SpecStatus → ℕ
index draft = 0
index approved = 1
index rejected = 2
index superseded = 3

abbrev pub eq : SpecStatus → SpecStatus → Bool
eq s t = index s == index t

pub eq_iff : (s t : SpecStatus) → (eq s t ≡ true) ↔ (s ≡ t)
eq_iff s t = ground arith

instance abbrev pub status_eq : Eq SpecStatus
status_eq = record { eq = eq; eq_iff = eq_iff }

abbrev pub statuses : List SpecStatus
statuses = draft ∷ approved ∷ rejected ∷ superseded ∷ []

abbrev pub transitions : Table SpecStatus
transitions =
    (draft, approved ∷ rejected ∷ superseded ∷ [])
    ∷ (approved, superseded ∷ [])
    ∷ (rejected, draft ∷ [])
    ∷ (superseded, [])
    ∷ []

unfoldable pub can_transition : SpecStatus → SpecStatus → Bool
unfolding allows
can_transition from to = allows transitions from to
