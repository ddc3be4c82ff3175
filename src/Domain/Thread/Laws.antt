-- ===== src/Domain/Thread/Laws.antt =====
-- The life of a thread.
use ants.Prelude.{◌≡◌, ◌≢◌, ◌⊎◌, ◌↔◌, inc, arith}
use ants.Domain.Errors.{ok}
use ants.Domain.States.{move}
use ants.Domain.ThreadStatus.{ThreadStatus, status_eq, can_transition}
use ants.Domain.Thread.{Thread, transition_to}

-- Every thread that is not archived can be archived, and an archived one moves no more.
pub archive_iff :
    (t : Thread)
    → (transition_to t ThreadStatus.archived
        ≡ ok (record t { status = ThreadStatus.archived; version = inc t.version }))
      ↔ (t.status ≢ ThreadStatus.archived)
unfolding transition_to move can_transition
archive_iff t = ground arith

-- A thread is merged only from the state that awaits a human, and that state is reached only from
-- the review.
pub merged_after_review :
    (t u : Thread) (next : ThreadStatus)
    → transition_to t next ≡ ok u
    → ((u.status ≢ ThreadStatus.merged) ⊎ (t.status ≡ ThreadStatus.ready_for_review))
      × ((u.status ≢ ThreadStatus.ready_for_review) ⊎ (t.status ≡ ThreadStatus.reviewing))
unfolding transition_to move can_transition
merged_after_review t u next h = ground arith
