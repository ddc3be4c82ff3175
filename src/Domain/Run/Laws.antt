-- ===== src/Domain/Run/Laws.antt =====
-- How a run ends: `Finish` and the terminal states.
use ants.Prelude.{◌≡◌, ◌≢◌, ◌⊎◌, true, false, Option, none, some, Time, inc, arith}
use ants.Domain.Errors.{ok}
use ants.Domain.States.{move}
use ants.Domain.RunStatus.{RunStatus, status_eq, can_transition}
use ants.Domain.Task.{FailureInfo}
use ants.Domain.Run.{Run, is_terminal, transition_to, finish}

-- A run that has ended is never moved again.
pub transition_to-terminal :
    (r : Run) (next : RunStatus) {r' : Run}
    → is_terminal r.status ≡ true
    → transition_to r next ≢ ok r'
unfolding transition_to move can_transition
transition_to-terminal r next h k = ground arith

pub transition_to-lem :
    (r : Run) (next : RunStatus) {r' : Run}
    → transition_to r next ≡ ok r'
    → (can_transition r.status next ≡ true)
      × (r' ≡ record r { status = next; version = inc r.version })
unfolding transition_to move
transition_to-lem r next h = ground arith

-- A run that `Finish` accepts was still going, ends in the terminal state that was asked for, and
-- carries the instant and the failure given; a failed run has a failure.
pub finish-ok :
    (r : Run) (next : RunStatus) (at : Time) (failure : Option FailureInfo) {r' : Run}
    → finish r next at failure ≡ ok r'
    → (is_terminal r.status ≡ false)
      × (is_terminal next ≡ true)
      × (r'.status ≡ next)
      × (r'.finished_at ≡ some at)
      × (r'.failure ≡ failure)
      × ((next ≢ RunStatus.failed) ⊎ (failure ≢ none))
      × (r'.version ≡ inc r.version)
unfolding finish move can_transition
finish-ok r next at failure h = ground arith

-- `Finish` succeeds once: on a run that it has ended it is refused, whatever is asked.
pub finish_once :
    (r : Run) (next : RunStatus) (at : Time) (failure : Option FailureInfo) {r' : Run}
    (next' : RunStatus) (at' : Time) (failure' : Option FailureInfo) {r'' : Run}
    → finish r next at failure ≡ ok r'
    → finish r' next' at' failure' ≢ ok r''
finish_once r next at failure {r'} next' at' failure' {r''} h k =
    ground
      (arith, finish-ok r next at failure {r' = r'} h, finish-ok r' next' at' failure' {r' = r''} k)
