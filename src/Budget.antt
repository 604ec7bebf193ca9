-- ===== src/Budget.antt =====
-- models/budget.py: the money that calls of a model may cost. A price is a natural number of units
-- for a million tokens, and an amount is counted in millionths of a unit, so that the source's
-- division by a million is exact; Decimal's rounding to 28 digits is left out. The calendar of the
-- time zone is a parameter. Token counts are natural numbers, where the source raises ValueError for
-- one below zero.
pub mod Limits
pub mod History
mod Samples
use lemonbot.Prelude.{
  ℕ, String, ◌+◌, ◌-◌, ◌*◌, min, Bool, true, false, ◌&&◌, Option, none, some, List, [], ◌∷◌, ◌++◌,
  ltb, ◌==◌, string_eq, nat_eq, if◌then◌else◌, Exception, Result, ok, err,
}
use lemonbot.Domain.{Time}
use lemonbot.Sql.{delete_where, first_where}

pub record ModelPrice : Type 0 where
  pub input_per_million : ℕ
  pub output_per_million : ℕ
  pub cached_input_per_million : Option ℕ

-- `self.cached_input_per_million or self.input_per_million`: a price of zero is taken as none.
abbrev pub cached_price : ModelPrice → ℕ
cached_price price = elim price.cached_input_per_million [
  | none ↦ price.input_per_million
  | some p ↦ if p == 0 then price.input_per_million else p
]

unfoldable pub cost : ModelPrice → (prompt_tokens completion_tokens cached_prompt_tokens : ℕ) → ℕ
cost price prompt_tokens completion_tokens cached_prompt_tokens =
    let cached = min prompt_tokens cached_prompt_tokens in
    let uncached = prompt_tokens - cached in
    (uncached * price.input_per_million + cached * cached_price price)
    + completion_tokens * price.output_per_million

pub record BudgetLimits : Type 0 where
  pub daily : ℕ
  pub monthly : ℕ

pub record BudgetReservation : Type 0 where
  pub reservation_id : String
  pub provider : String
  pub model : String
  pub amount : ℕ
  pub day_key : String
  pub month_key : String
  pub created_at : Time

pub record BudgetSettlement : Type 0 where
  pub reservation_id : String
  pub reserved : ℕ
  pub charged : ℕ
  pub over_reservation : Bool

-- A dict from keys to amounts, whose missing keys count as zero.
abbrev pub Spend : Type 0
Spend = List (String × ℕ)

unfoldable pub spend_of : String → Spend → ℕ
spend_of key [] = 0
spend_of key ((k, n) ∷ rest) = if k == key then n else spend_of key rest

-- `spend[key] = spend.get(key, Decimal(0)) + amount`
unfoldable pub add_spend : String → ℕ → Spend → Spend
add_spend key amount [] = (key, amount) ∷ []
add_spend key amount ((k, n) ∷ rest) =
    if k == key then (k, n + amount) ∷ rest else (k, n) ∷ add_spend key amount rest

pub record PriceEntry : Type 0 where
  pub provider : String
  pub model : String
  pub price : ModelPrice

-- `_limits` and `_prices` never change.
pub record BudgetManager : Type 0 where
  pub limits : BudgetLimits
  pub prices : List PriceEntry
  pub daily_spend : Spend
  pub monthly_spend : Spend
  pub reservations : List BudgetReservation

-- `_day_key` and `_month_key`
pub record Calendar : Type 0 where
  pub day_key : Time → String
  pub month_key : Time → String

abbrev priced : String → String → PriceEntry → Bool
priced provider model entry = entry.provider == provider && entry.model == model

abbrev entry_price : Option PriceEntry → Result ModelPrice
entry_price none = err Exception.price_not_configured
entry_price (some entry) = ok entry.price

abbrev pub price_for : String → String → BudgetManager → Result ModelPrice
price_for provider model b = entry_price (first_where (priced provider model) b.prices)

-- The sum of the amounts of the reservations that pass a test.
unfoldable pub reserved_sum : (BudgetReservation → Bool) → List BudgetReservation → ℕ
reserved_sum test [] = 0
reserved_sum test (r ∷ rs) = (if test r then r.amount else 0) + reserved_sum test rs

abbrev pub on_day : String → BudgetReservation → Bool
on_day key r = r.day_key == key

abbrev pub in_month : String → BudgetReservation → Bool
in_month key r = r.month_key == key

abbrev pub has_id : String → BudgetReservation → Bool
has_id id r = r.reservation_id == id

-- A dict from ids to reservations: an assignment replaces the entry with the same id.
abbrev pub put : BudgetReservation → List BudgetReservation → List BudgetReservation
put r rs = delete_where (has_id r.reservation_id) rs ++ r ∷ []

-- The part of `reserve` that runs under the lock.
abbrev pub reserve_amount :
    BudgetReservation → BudgetManager → BudgetManager × Result BudgetReservation
reserve_amount r b =
    let daily_reserved = reserved_sum (on_day r.day_key) b.reservations in
    let monthly_reserved = reserved_sum (in_month r.month_key) b.reservations in
    let projected_day = spend_of r.day_key b.daily_spend + daily_reserved + r.amount in
    let projected_month = spend_of r.month_key b.monthly_spend + monthly_reserved + r.amount in
    if ltb b.limits.daily projected_day
    then (b, err Exception.budget_exceeded)
    else if ltb b.limits.monthly projected_month
    then (b, err Exception.budget_exceeded)
    else (record b { reservations = put r b.reservations }, ok r)

abbrev reserve_at :
    Result ModelPrice
    → (ModelPrice → BudgetReservation)
    → BudgetManager
    → BudgetManager × Result BudgetReservation
reserve_at (err e) r b = (b, err e)
reserve_at (ok price) r b = reserve_amount (r price) b

-- `id` is a fresh UUID, and `now` the argument `at` or the clock.
unfoldable pub reserve :
    Calendar
    → (id provider model : String) → (prompt_tokens maximum_completion_tokens : ℕ) → Time
    → BudgetManager
    → BudgetManager × Result BudgetReservation
reserve calendar id provider model prompt_tokens maximum_completion_tokens now b =
    reserve_at (price_for provider model b)
      (λ price. record {
        reservation_id = id;
        provider = provider;
        model = model;
        amount = cost price prompt_tokens maximum_completion_tokens 0;
        day_key = calendar.day_key now;
        month_key = calendar.month_key now;
        created_at = now;
      })
      b

abbrev pub pop : String → BudgetManager → BudgetManager
pop id b = record b { reservations = delete_where (has_id id) b.reservations }

abbrev pub found : String → BudgetManager → Option BudgetReservation
found id b = first_where (has_id id) b.reservations

unfoldable pub release : String → BudgetManager → BudgetManager × Result {0} Unit
release id b = elim (found id b) [
  | none ↦ (b, err Exception.key_error)
  | some r ↦ (pop id b, ok tt)
]

abbrev pub charge : BudgetReservation → ℕ → BudgetManager → BudgetManager
charge r charged b = record b {
  daily_spend = add_spend r.day_key charged b.daily_spend;
  monthly_spend = add_spend r.month_key charged b.monthly_spend;
}

-- The reservation is popped before the price is looked up.
abbrev pub charge_usage :
    String
    → BudgetReservation
    → Result ModelPrice
    → (ModelPrice → ℕ)
    → BudgetManager
    → BudgetManager × Result BudgetSettlement
charge_usage id r (err e) usage b = (b, err e)
charge_usage id r (ok price) usage b = (
  charge r (usage price) b,
  ok record {
    reservation_id = id;
    reserved = r.amount;
    charged = usage price;
    over_reservation = ltb r.amount (usage price);
  },
)

abbrev pub settle_found :
    String
    → Option BudgetReservation
    → (ModelPrice → ℕ)
    → BudgetManager
    → BudgetManager × Result BudgetSettlement
settle_found id none usage b = (b, err Exception.key_error)
settle_found id (some r) usage b =
    charge_usage id r (price_for r.provider r.model b) usage (pop id b)

unfoldable pub settle :
    (id : String)
    → (prompt_tokens completion_tokens cached_prompt_tokens : ℕ) → BudgetManager
    → BudgetManager × Result BudgetSettlement
settle id prompt_tokens completion_tokens cached_prompt_tokens b =
    settle_found id (found id b)
      (λ price. cost price prompt_tokens completion_tokens cached_prompt_tokens) b

abbrev pub settle_whole :
    String → Option BudgetReservation → BudgetManager → BudgetManager × Result BudgetSettlement
settle_whole id none b = (b, err Exception.key_error)
settle_whole id (some r) b = (
  charge r r.amount (pop id b),
  ok record {
    reservation_id = id;
    reserved = r.amount;
    charged = r.amount;
    over_reservation = false;
  },
)

unfoldable pub settle_unknown : String → BudgetManager → BudgetManager × Result BudgetSettlement
settle_unknown id b = settle_whole id (found id b) b
