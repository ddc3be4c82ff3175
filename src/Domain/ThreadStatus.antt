-- ===== src/Domain/ThreadStatus.antt =====
-- internal/domain/thread.go: the stages of a thread, and the transitions between them.
use ants.Prelude.{ℕ, ◌≡◌, ◌↔◌, Bool, true, List, [], ◌∷◌, arith, ◌==◌}
use ants.Domain.States.{Eq, Table, allows}

pub data ThreadStatus : Type 0 where
  idle planning awaiting_input ready_to_execute executing waiting_external needs_attention reviewing
        fixing ready_for_review merged failed archived :
      ThreadStatus

abbrev index : ThreadStatus → ℕ
index idle = 0
index planning = 1
index awaiting_input = 2
index ready_to_execute = 3
index executing = 4
index waiting_external = 5
index needs_attention = 6
index reviewing = 7
index fixing = 8
index ready_for_review = 9
index merged = 10
index failed = 11
index archived = 12

abbrev pub eq : ThreadStatus → ThreadStatus → Bool
eq s t = index s == index t

pub eq_iff : (s t : ThreadStatus) → (eq s t ≡ true) ↔ (s ≡ t)
eq_iff s t = ground arith

instance abbrev pub status_eq : Eq ThreadStatus
status_eq = record { eq = eq; eq_iff = eq_iff }

abbrev pub statuses : List ThreadStatus
statuses =
    idle ∷ planning ∷ awaiting_input ∷ ready_to_execute ∷ executing ∷ waiting_external
    ∷ needs_attention ∷ reviewing ∷ fixing ∷ ready_for_review ∷ merged ∷ failed ∷ archived ∷ []

abbrev pub transitions : Table ThreadStatus
transitions =
    (idle, planning ∷ archived ∷ [])
    ∷ (planning, awaiting_input ∷ ready_to_execute ∷ failed ∷ archived ∷ [])
    ∷ (awaiting_input, planning ∷ ready_to_execute ∷ archived ∷ [])
    ∷ (ready_to_execute, executing ∷ needs_attention ∷ archived ∷ [])
    ∷ (executing, waiting_external ∷ needs_attention ∷ reviewing ∷ failed ∷ archived ∷ [])
    ∷ (waiting_external, executing ∷ failed ∷ archived ∷ [])
    ∷ (needs_attention, executing ∷ archived ∷ [])
    ∷ (reviewing, fixing ∷ ready_for_review ∷ failed ∷ archived ∷ [])
    ∷ (fixing, reviewing ∷ archived ∷ [])
    ∷ (ready_for_review, merged ∷ idle ∷ archived ∷ [])
    ∷ (merged, archived ∷ [])
    ∷ (failed, idle ∷ archived ∷ [])
    ∷ (archived, [])
    ∷ []

unfoldable pub can_transition : ThreadStatus → ThreadStatus → Bool
unfolding allows
can_transition from to = allows transitions from to
