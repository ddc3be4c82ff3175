-- ===== src/Domain/RunStatus.antt =====
-- internal/domain/run.go: the stages of a run, and the transitions between them.
use ants.Prelude.{ℕ, ◌≡◌, ◌↔◌, Bool, true, List, [], ◌∷◌, arith, ◌==◌}
use ants.Domain.States.{Eq, Table, allows}

pub data RunStatus : Type 0 where
  pending planning executing integrating verifying reporting completed failed cancelled : RunStatus

abbrev index : RunStatus → ℕ
index pending = 0
index planning = 1
index executing = 2
index integrating = 3
index verifying = 4
index reporting = 5
index completed = 6
index failed = 7
index cancelled = 8

abbrev pub eq : RunStatus → RunStatus → Bool
eq s t = index s == index t

pub eq_iff : (s t : RunStatus) → (eq s t ≡ true) ↔ (s ≡ t)
eq_iff s t = ground arith

instance abbrev pub status_eq : Eq RunStatus
status_eq = record { eq = eq; eq_iff = eq_iff }

abbrev pub statuses : List RunStatus
statuses =
    pending ∷ planning ∷ executing ∷ integrating ∷ verifying ∷ reporting ∷ completed ∷ failed
    ∷ cancelled ∷ []

abbrev pub transitions : Table RunStatus
transitions =
    (pending, planning ∷ cancelled ∷ [])
    ∷ (planning, executing ∷ failed ∷ cancelled ∷ [])
    ∷ (executing, integrating ∷ verifying ∷ failed ∷ cancelled ∷ [])
    ∷ (integrating, verifying ∷ failed ∷ cancelled ∷ [])
    ∷ (verifying, reporting ∷ failed ∷ cancelled ∷ [])
    ∷ (reporting, completed ∷ failed ∷ cancelled ∷ [])
    ∷ (completed, [])
    ∷ (failed, [])
    ∷ (cancelled, [])
    ∷ []

unfoldable pub can_transition : RunStatus → RunStatus → Bool
unfolding allows
can_transition from to = allows transitions from to
