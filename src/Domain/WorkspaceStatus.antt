-- ===== src/Domain/WorkspaceStatus.antt =====
-- internal/domain/workspace.go: the stages of a task's working copy, and the transitions between them.
use ants.Prelude.{ℕ, ◌≡◌, ◌↔◌, Bool, true, List, [], ◌∷◌, arith, ◌==◌}
use ants.Domain.States.{Eq, Table, allows}

pub data WorkspaceStatus : Type 0 where
  creating ready committed failed released : WorkspaceStatus

abbrev index : WorkspaceStatus → ℕ
index creating = 0
index ready = 1
index committed = 2
index failed = 3
index released = 4

abbrev pub eq : WorkspaceStatus → WorkspaceStatus → Bool
eq s t = index s == index t

pub eq_iff : (s t : WorkspaceStatus) → (eq s t ≡ true) ↔ (s ≡ t)
eq_iff s t = ground arith

instance abbrev pub status_eq : Eq WorkspaceStatus
status_eq = record { eq = eq; eq_iff = eq_iff }

abbrev pub statuses : List WorkspaceStatus
statuses = creating ∷ ready ∷ committed ∷ failed ∷ released ∷ []

abbrev pub transitions : Table WorkspaceStatus
transitions =
    (creating, ready ∷ failed ∷ released ∷ [])
    ∷ (ready, committed ∷ failed ∷ released ∷ [])
    ∷ (committed, released ∷ [])
    ∷ (failed, released ∷ [])
    ∷ (released, [])
    ∷ []

unfoldable pub can_transition : WorkspaceStatus → WorkspaceStatus → Bool
unfolding allows
can_transition from to = allows transitions from to
