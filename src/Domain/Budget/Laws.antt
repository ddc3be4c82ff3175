-- ===== src/Domain/Budget/Laws.antt =====
-- internal/domain/budget.go: what a run charges to its ledger.
use ants.Prelude.{ℕ, suc, ◌∙◌, ◌+◌, ◌≤◌, ◌<◌, ◌≡◌, refl, false, List, [], ◌∷◌, sign_bit, arith}
use Prim.Native.Nat.{min}
use ants.Domain.Errors.{Result, ok, err}
use ants.Domain.Budget.{BudgetLedger, reserve_task, record_exec_op}

-- What a run charges to its ledger; a charge that is refused changes nothing.
pub data Charge : Type 0 where
  task exec_op : Charge

charge : Charge → BudgetLedger → Result BudgetLedger
charge task = reserve_task
charge exec_op = record_exec_op

abbrev or_keep : BudgetLedger → Result BudgetLedger → BudgetLedger
or_keep l (ok l') = l'
or_keep l (err e) = l

pub spend : List Charge → BudgetLedger → BudgetLedger
spend [] l = l
spend (c ∷ cs) l = spend cs (or_keep l (charge c l))

abbrev pub count_tasks : List Charge → ℕ
count_tasks [] = 0
count_tasks (task ∷ cs) = suc (count_tasks cs)
count_tasks (exec_op ∷ cs) = count_tasks cs

-- The caps are numbers that the counters reach without a wrap.
pub record IsCapped (l : BudgetLedger) : Type 0 where
  pub limited : l.limits.unlimited ≡ false
  pub task_cap : l.limits.max_tasks + 1 < sign_bit
  pub exec_cap : l.limits.max_exec_ops + 1 < sign_bit
  pub tasks_within : l.tasks_used ≤ l.limits.max_tasks
  pub exec_within : l.exec_ops_used ≤ l.limits.max_exec_ops

charge-IsCapped : (c : Charge) (l : BudgetLedger) → IsCapped l → IsCapped (or_keep l (charge c l))
unfolding charge reserve_task record_exec_op
charge-IsCapped task l w = ground arith
charge-IsCapped exec_op l w = ground arith

charge-limits : (c : Charge) (l : BudgetLedger) → (or_keep l (charge c l)).limits ≡ l.limits
unfolding charge reserve_task record_exec_op
charge-limits task l = ground arith
charge-limits exec_op l = ground arith

-- Under caps, however a run charges its ledger, neither counter ever passes its cap, and the caps
-- stay as they were.
pub spend-IsCapped :
    (cs : List Charge) (l : BudgetLedger)
    → IsCapped l
    → IsCapped (spend cs l) × ((spend cs l).limits ≡ l.limits)
unfolding spend
spend-IsCapped [] l w = (w, refl)
spend-IsCapped (c ∷ cs) l w =
    let l' : BudgetLedger = or_keep l (charge c l) in
    let (capped, same) = spend-IsCapped cs l' (charge-IsCapped c l w) in
    (capped, same ∙ charge-limits c l)

charge-tasks :
    (c : Charge) (cs : List Charge) (l : BudgetLedger)
    → IsCapped l
    → let l' = or_keep l (charge c l) in
      min (l'.tasks_used + count_tasks cs) l'.limits.max_tasks
      ≡ min (l.tasks_used + count_tasks (c ∷ cs)) l.limits.max_tasks
unfolding charge reserve_task record_exec_op
charge-tasks task cs l w = ground arith
charge-tasks exec_op cs l w = ground arith

-- Every task up to the cap is granted: the counter is the number of tasks asked for, cut at the cap.
pub spend-tasks :
    (cs : List Charge) (l : BudgetLedger)
    → IsCapped l
    → (spend cs l).tasks_used ≡ min (l.tasks_used + count_tasks cs) l.limits.max_tasks
unfolding spend
spend-tasks [] l w = omega (arith, w.tasks_within)
spend-tasks (c ∷ cs) l w =
    spend-tasks cs (or_keep l (charge c l)) (charge-IsCapped c l w) ∙ charge-tasks c cs l w
