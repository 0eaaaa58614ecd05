-- ===== src/Performance/Budget.antt =====
-- services/api/performance.py: `QueryBudget`. Estimates of rows and joins are not negative.
use native.Mathlib.Nat.{mul-le-mul}
use cine_vault.Prelude.{ℕ, ◌*◌, ◌≤◌, Bool, ◌≡◌, max, arith, ltb, Result, ok, err, if◌then◌else◌}

abbrev pub max_budget : ℕ
max_budget = 1000000

-- `QueryBudgetExceededError`, with the cost and the budget of its text and its signal.
pub data BudgetError : Type 0 where
  query_budget_exceeded : ℕ → ℕ → BudgetError

unfoldable pub estimate_cost : ℕ → ℕ → Bool → ℕ
estimate_cost estimated_rows join_count has_sort =
    let sort_factor = if has_sort then 2 else 1 in
    let join_factor = max 1 join_count in estimated_rows * join_factor * sort_factor

unfoldable pub enforce : ℕ → ℕ → Bool → Result BudgetError ℕ
unfolding estimate_cost
enforce estimated_rows join_count has_sort =
    let cost = estimate_cost estimated_rows join_count has_sort in
    if ltb max_budget cost then err (query_budget_exceeded cost max_budget) else ok cost

estimate_cost_mono :
    (rows rows' joins joins' : ℕ) (has_sort : Bool)
    → rows' ≤ rows
    → joins' ≤ joins
    → estimate_cost rows' joins' has_sort ≤ estimate_cost rows joins has_sort
unfolding estimate_cost
estimate_cost_mono rows rows' joins joins' has_sort h k =
    mul-le-mul (mul-le-mul h (omega arith)) (omega arith)

-- A query within the budget stays within it with fewer rows and joins, and costs no more.
pub enforce_mono :
    (rows rows' joins joins' : ℕ) (has_sort : Bool) (cost : ℕ)
    → rows' ≤ rows
    → joins' ≤ joins
    → enforce rows joins has_sort ≡ ok cost
    → (cost' : ℕ) × (enforce rows' joins' has_sort ≡ ok cost')
      × (cost' ≤ cost)
      × (cost ≤ max_budget)
unfolding enforce
enforce_mono rows rows' joins joins' has_sort cost h k e =
    let less = estimate_cost_mono rows rows' joins joins' has_sort h k in
    (estimate_cost rows' joins' has_sort, ground (arith, less), ground (arith, less), ground arith)
