-- ===== src/Domain/Budget.antt =====
-- internal/domain/budget.go: hard caps on the work of a run, and the ledger that enforces them.
pub mod Laws
use ants.Prelude.{
  ℕ, Bool, true, false, not, ◌||◌, ◌==◌, Text, Int64, slt, inc, is_neg, Time, if◌then◌else◌,
}
use ants.Domain.Errors.{Result, ok, err, ◌>>=◌, ◌>>◌, refuse_if, invalidf, exhausted}
use ants.Domain.Ids.{Entity, parse_id}

pub data BudgetScope : Type 0 where
  run task : BudgetScope
  other : Text → BudgetScope

pub record BudgetLimits : Type 0 where
  pub max_tasks : Int64
  pub max_exec_ops : Int64
  pub max_wall_duration : Int64
  pub unlimited : Bool

unfoldable pub validate_limits : BudgetLimits → Result (Unit {0})
validate_limits l =
    if l.unlimited
    then refuse_if
        (not (l.max_tasks == 0) || not (l.max_exec_ops == 0) || not (l.max_wall_duration == 0))
        (invalidf "budget_limits")
    else refuse_if (is_neg l.max_tasks || is_neg l.max_exec_ops || is_neg l.max_wall_duration)
        (invalidf "budget_limits")

pub record Budget : Type 0 where
  pub id : Text
  pub tenant_id : Text
  pub run_id : Text
  pub scope : BudgetScope
  pub limits : BudgetLimits
  pub created_at : Time

abbrev is_supported : BudgetScope → Bool
is_supported (other s) = false
is_supported run = true
is_supported task = true

unfoldable pub new_budget :
    (id tenant_id run_id : Text) (scope : BudgetScope) (limits : BudgetLimits) (now : Time)
    → Result Budget
unfolding validate_limits
new_budget id tenant_id run_id scope limits now = do
  _ ← parse_id Entity.budget id
  validate_limits limits
  refuse_if (not (is_supported scope)) (invalidf "budget_scope")
  ok (record {
    id = id;
    tenant_id = tenant_id;
    run_id = run_id;
    scope = scope;
    limits = limits;
    created_at = now;
  })

pub record BudgetLedger : Type 0 where
  pub budget_id : Text
  pub limits : BudgetLimits
  pub tasks_used : Int64
  pub exec_ops_used : Int64

unfoldable pub new_ledger : Budget → BudgetLedger
new_ledger b = record { budget_id = b.id; limits = b.limits; tasks_used = 0; exec_ops_used = 0 }

-- On an error the ledger is as it was, here and in `record_exec_op`.
unfoldable pub reserve_task : BudgetLedger → Result BudgetLedger
reserve_task l =
    if l.limits.unlimited
    then ok (record l { tasks_used = inc l.tasks_used })
    else if slt l.limits.max_tasks (inc l.tasks_used)
    then err (exhausted "budget_task_cap")
    else ok (record l { tasks_used = inc l.tasks_used })

unfoldable pub record_exec_op : BudgetLedger → Result BudgetLedger
record_exec_op l =
    if l.limits.unlimited
    then ok (record l { exec_ops_used = inc l.exec_ops_used })
    else if slt l.limits.max_exec_ops (inc l.exec_ops_used)
    then err (exhausted "budget_exec_cap")
    else ok (record l { exec_ops_used = inc l.exec_ops_used })
