-- ===== src/Budget/Samples.antt =====
-- Runs of the budget on a concrete manager.
use lemonbot.Prelude.{◌≤◌, ◌≡◌, refl, some, List, [], ◌∷◌, arith}
use lemonbot.Domain.{Time}
use lemonbot.Sql.{delete_where, first_where}
use lemonbot.Budget.{
  ModelPrice, BudgetLimits, BudgetManager, Calendar, cost, spend_of, add_spend, reserved_sum,
  reserve, settle,
}
use lemonbot.Budget.Limits.{Within}
use lemonbot.Budget.History.{BudgetCall, reserves, settles, run, run-Within, cost_bound}

abbrev price : ModelPrice
price = record { input_per_million = 3; output_per_million = 5; cached_input_per_million = some 1 }

abbrev limits : BudgetLimits
limits = record { daily = 100; monthly = 150 }

abbrev fresh : BudgetManager
fresh = record {
  limits = limits;
  prices = record { provider = "p"; model = "m"; price = price } ∷ [];
  daily_spend = [];
  monthly_spend = [];
  reservations = [];
}

-- A calendar with one day.
abbrev one_day : Calendar
one_day = record { day_key = λ t. "2026-01-01"; month_key = λ t. "2026-01" }

-- The third reservation does not fit, and the second settlement overruns its reservation.
abbrev calls : List (Time × BudgetCall)
calls =
    (1, reserves "r1" "p" "m" 10 10)
    ∷ (2, reserves "r2" "p" "m" 1 1)
    ∷ (3, reserves "r3" "p" "m" 10 10)
    ∷ (4, settles "r1" 10 5 10)
    ∷ (5, settles "r2" 2 2 0)
    ∷ []

fresh-Within : Within limits 0 fresh
unfolding spend_of reserved_sum
fresh-Within = record { same = refl; days = λ key. omega arith; months = λ key. omega arith }

run-Within_example : Within limits (run one_day calls fresh).1 (run one_day calls fresh).0
run-Within_example = run-Within limits one_day calls fresh fresh-Within

overruns : (run one_day calls fresh).1 ≡ 8
unfolding run reserve settle cost delete_where first_where reserved_sum spend_of add_spend
overruns = refl

cost_bound_example : cost price 10 5 10 ≤ cost price 10 10 0
cost_bound_example = cost_bound price 10 5 10 10 10 (omega arith) (omega arith) (omega arith)
