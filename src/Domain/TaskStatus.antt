-- ===== src/Domain/TaskStatus.antt =====
-- internal/domain/task.go: the stages of a task, and the transitions between them.
use ants.Prelude.{ℕ, ◌≡◌, ◌↔◌, Bool, true, List, [], ◌∷◌, arith, ◌==◌}
use ants.Domain.States.{Eq, Table, allows}

pub data TaskStatus : Type 0 where
  draft queued provisioning working verifying integrating done waiting_external blocked cancelled
        failed :
      TaskStatus

abbrev index : TaskStatus → ℕ
index draft = 0
index queued = 1
index provisioning = 2
index working = 3
index verifying = 4
index integrating = 5
index done = 6
index waiting_external = 7
index blocked = 8
index cancelled = 9
index failed = 10

abbrev pub eq : TaskStatus → TaskStatus → Bool
eq s t = index s == index t

pub eq_iff : (s t : TaskStatus) → (eq s t ≡ true) ↔ (s ≡ t)
eq_iff s t = ground arith

instance abbrev pub status_eq : Eq TaskStatus
status_eq = record { eq = eq; eq_iff = eq_iff }

abbrev pub statuses : List TaskStatus
statuses =
    draft ∷ queued ∷ provisioning ∷ working ∷ verifying ∷ integrating ∷ done ∷ waiting_external
    ∷ blocked ∷ cancelled ∷ failed ∷ []

abbrev pub transitions : Table TaskStatus
transitions =
    (draft, queued ∷ cancelled ∷ [])
    ∷ (queued, provisioning ∷ blocked ∷ cancelled ∷ [])
    ∷ (provisioning, working ∷ waiting_external ∷ blocked ∷ failed ∷ cancelled ∷ [])
    ∷ (working, verifying ∷ waiting_external ∷ blocked ∷ failed ∷ cancelled ∷ [])
    ∷ (verifying, integrating ∷ working ∷ failed ∷ cancelled ∷ [])
    ∷ (integrating, done ∷ failed ∷ cancelled ∷ [])
    ∷ (done, [])
    ∷ (waiting_external, working ∷ cancelled ∷ [])
    ∷ (blocked, queued ∷ cancelled ∷ [])
    ∷ (cancelled, [])
    ∷ (failed, queued ∷ cancelled ∷ [])
    ∷ []

unfoldable pub can_transition : TaskStatus → TaskStatus → Bool
unfolding allows
can_transition from to = allows transitions from to
