-- ===== src/Domain/Task/Laws.antt =====
-- internal/domain/task.go: how a task ends, and its attempts.
use ants.Prelude.{
  ap, ◌∙◌, ℕ, zero, suc, ◌+◌, ◌-◌, ◌≤◌, ◌<◌, ◌≡◌, ◌≢◌, ◌↔◌, refl, subst, true, false, List, Text,
  Int64, inc, slt, is_neg, Time, sign_bit, arith, ◌||◌, not, is_empty,
}
use Prim.Native.Nat.{min}
use native.Mathlib.Decide.{dec_lt}
use ants.Domain.Errors.{Result, ok, err, refuse_if-ok, bind-ok, ok-injective}
use ants.Domain.Ids.{Entity, parse_id}
use ants.Domain.Ids.Laws.{parse_id-ok_iff}
use ants.Domain.States.{move}
use ants.Domain.TaskStatus.{TaskStatus, status_eq, can_transition}
use ants.Domain.Task.{Task, TaskKind, new_task, transition_to, begin_attempt, is_valid_kind}

-- A task can be cancelled exactly if it is neither done nor cancelled: also when it has failed.
pub cancel_iff :
    (t : Task)
    → (transition_to t TaskStatus.cancelled
        ≡ ok (record t { status = TaskStatus.cancelled; version = inc t.version }))
      ↔ ((t.status ≢ TaskStatus.done) × (t.status ≢ TaskStatus.cancelled))
unfolding transition_to move can_transition
cancel_iff t = ground arith

-- Attempts begun one after the other; what is refused changes nothing. The number counts those that
-- were granted.
abbrev count_ok : Task → Result Task → Task × ℕ
count_ok t (ok t') = (t', 1)
count_ok t (err e) = (t, 0)

pub begin_attempts : ℕ → Task → Task × ℕ
begin_attempts zero t = (t, 0)
begin_attempts (suc k) t =
    let (t', granted) = count_ok t (begin_attempt t) in
    let (t'', more) = begin_attempts k t' in (t'', granted + more)

begin_attempt-below :
    (t : Task)
    → t.attempts < t.max_attempts
    → t.max_attempts < sign_bit
    → begin_attempt t ≡ ok (record t { attempts = suc t.attempts })
unfolding begin_attempt
begin_attempt-below t h small = ground arith

begin_attempt-above :
    (t : Task)
    → t.max_attempts ≤ t.attempts
    → t.attempts < sign_bit
    → count_ok t (begin_attempt t) ≡ (t, 0)
unfolding begin_attempt
begin_attempt-above t h small = ground arith

-- However often an attempt is asked for, just those up to the maximum are granted and counted.
begin_attempts-granted :
    (k : ℕ) (t : Task)
    → t.attempts ≤ t.max_attempts
    → t.max_attempts < sign_bit
    → ((begin_attempts k t).1 ≡ min k (t.max_attempts - t.attempts))
      × ((begin_attempts k t).0.attempts ≡ t.attempts + min k (t.max_attempts - t.attempts))
unfolding begin_attempts
begin_attempts-granted zero t h small = (omega arith, omega arith)
begin_attempts-granted (suc k) t h small = elim (dec_lt t.attempts t.max_attempts) [
  | yes below ↦
      let t' : Task = record t { attempts = suc t.attempts } in
      rw (begin_attempt-below t below small)
        (omega (arith, begin_attempts-granted k t' below small))
  | no above ↦
      rw (begin_attempt-above t (omega arith) (omega arith))
        (omega (arith, begin_attempts-granted k t h small))
]

-- A new task is a draft with a valid identifier, a name and a known kind, and grants as many
-- attempts as it was made with, between one and ten, however often they are asked for.
pub new_task-attempts :
    (id tenant_id run_id thread_id name : Text) (kind : TaskKind) (depth : Int64)
    (depends_on : List Text) (max_attempts : Int64) (now : Time) {t : Task} (k : ℕ)
    → new_task id tenant_id run_id thread_id name kind depth depends_on max_attempts now ≡ ok t
    → (t.status ≡ TaskStatus.draft)
      × (parse_id Entity.task t.id ≡ ok t.id)
      × (is_empty t.name ≡ false)
      × (is_valid_kind t.kind ≡ true)
      × (1 ≤ max_attempts)
      × (max_attempts ≤ 10)
      × ((begin_attempts k t).1 ≡ min k max_attempts)
unfolding new_task
new_task-attempts id tenant_id run_id thread_id name kind depth depends_on max_attempts now {t} k
      h =
    let (v, parsed, h₁) = bind-ok (parse_id Entity.task id) _ h in
    let (named, h₂) = refuse_if-ok (is_empty name) _ _ h₁ in
    let (known, h₃) = refuse_if-ok (not (is_valid_kind kind)) _ _ h₂ in
    let (_, h₄) = refuse_if-ok (is_neg depth) _ _ h₃ in
    let (bounded, h₅) = refuse_if-ok (slt max_attempts 1 || slt 10 max_attempts) _ _ h₄ in
    let same = ok-injective h₅ in
    let low : 1 ≤ max_attempts = ground (arith, bounded) in
    let high : max_attempts ≤ 10 = ground (arith, bounded) in
    subst
      (λ (u : Task).
        (u.status ≡ TaskStatus.draft)
        × (parse_id Entity.task u.id ≡ ok u.id)
        × (is_empty u.name ≡ false)
        × (is_valid_kind u.kind ≡ true)
        × (1 ≤ max_attempts)
        × (max_attempts ≤ 10)
        × ((begin_attempts k u).1 ≡ min k max_attempts))
      same
      (
        refl,
        rw parsed (ap ok ((parse_id-ok_iff Entity.task id v).0 parsed).0),
        named,
        ground (arith, known),
        low,
        high,
        (begin_attempts-granted k _ (omega arith) (omega arith)).0 ∙ omega arith,
      )
