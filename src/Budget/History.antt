-- ===== src/Budget/History.antt =====
-- What a sequence of the budget's methods can use, and what a settlement within its reservation costs.
use lemonbot.Prelude.{
  ℕ, String, ◌+◌, ◌-◌, ◌*◌, ◌≤◌, ◌≡◌, refl, min, Option, none, some, List, [], ◌∷◌, arith,
  Option-cases, inl, inr, Result, ok, err, subst, sym, ap, ◌∙◌,
}
use native.Mathlib.Nat.{mul-le-mul_left, mul-le-mul_right, add-mul}
use lemonbot.Domain.{Time}
use lemonbot.Budget.{
  ModelPrice, BudgetLimits, BudgetReservation, BudgetManager, BudgetSettlement, Calendar, found,
  pop, cost, cached_price, charge_usage, settle_found, settle_whole, price_for, reserve_at, reserve,
  release, settle, settle_unknown,
}
use lemonbot.Budget.Limits.{Within, Within-charge, Within-grow, Within-pop, Within-reserve_amount}

pub data BudgetCall : Type 0 where
  reserves : (id provider model : String) (prompt_tokens maximum_completion_tokens : ℕ) → BudgetCall
  releases settles_unknown : String → BudgetCall
  settles : (id : String) (prompt_tokens completion_tokens cached_prompt_tokens : ℕ) → BudgetCall

-- What a settlement charged beyond its reservation.
abbrev pub overrun : Result BudgetSettlement → ℕ
overrun (err e) = 0
overrun (ok s) = s.charged - s.reserved

-- A call's effect, and its overrun.
abbrev pub step : Calendar → Time → BudgetCall → BudgetManager → BudgetManager × ℕ
step calendar now (reserves id provider model prompt_tokens maximum_completion_tokens) b =
    ((reserve calendar id provider model prompt_tokens maximum_completion_tokens now b).0, 0)
step calendar now (releases id) b = ((release id b).0, 0)
step calendar now (settles_unknown id) b =
    let (after, result) = settle_unknown id b in (after, overrun result)
step calendar now (settles id prompt_tokens completion_tokens cached_prompt_tokens) b =
    let (after, result) = settle id prompt_tokens completion_tokens cached_prompt_tokens b in
    (after, overrun result)

-- The budget after a sequence of calls, and the sum of their overruns.
unfoldable pub run : Calendar → List (Time × BudgetCall) → BudgetManager → BudgetManager × ℕ
run calendar [] b = (b, 0)
run calendar ((now, c) ∷ cs) b =
    let (after, over) = step calendar now c b in
    let (last, rest) = run calendar cs after in (last, over + rest)

module _ (limits : BudgetLimits) (extra : ℕ) (b : BudgetManager) (w : Within limits extra b) where
  Within-reserve_at :
      (price : Result ModelPrice) (r : ModelPrice → BudgetReservation)
      → Within limits extra (reserve_at price r b).0
  Within-reserve_at (err e) r = w
  Within-reserve_at (ok price) r = Within-reserve_amount limits extra b w (r price)

  Within-charge_usage :
      (id : String) (r : BudgetReservation) (price : Result ModelPrice) (usage : ModelPrice → ℕ)
      → found id b ≡ some r
      → Within limits
          (extra + overrun (charge_usage id r price usage (pop id b)).1)
          (charge_usage id r price usage (pop id b)).0
  Within-charge_usage id r (err e) usage h =
      Within-grow limits extra (pop id b) (Within-pop limits extra b w id) 0
  Within-charge_usage id r (ok price) usage h = Within-charge limits extra b w id r (usage price) h

  Within-settle_found :
      (id : String) (f : Option BudgetReservation) (usage : ModelPrice → ℕ)
      → found id b ≡ f
      → Within limits (extra + overrun (settle_found id f usage b).1) (settle_found id f usage b).0
  Within-settle_found id none usage h = Within-grow limits extra b w 0
  Within-settle_found id (some r) usage h =
      Within-charge_usage id r (price_for r.provider r.model b) usage h

  Within-settle_whole :
      (id : String) (f : Option BudgetReservation)
      → found id b ≡ f
      → Within limits (extra + overrun (settle_whole id f b).1) (settle_whole id f b).0
  Within-settle_whole id none h = Within-grow limits extra b w 0
  Within-settle_whole id (some r) h = Within-charge limits extra b w id r r.amount h

  Within-release : (id : String) → Within limits extra (release id b).0
  unfolding release
  Within-release id = elim (Option-cases (found id b)) [
    | inl e ↦ rw (e, release) w
    | inr (r, e) ↦ rw (e, release) (Within-pop limits extra b w id)
  ]

  Within-step :
      (calendar : Calendar) (now : Time) (c : BudgetCall)
      → Within limits (extra + (step calendar now c b).1) (step calendar now c b).0
  unfolding reserve settle settle_unknown
  Within-step calendar now (reserves id provider model prompt_tokens maximum_completion_tokens) =
      Within-grow limits extra _ (Within-reserve_at _ _) 0
  Within-step calendar now (releases id) = Within-grow limits extra _ (Within-release id) 0
  Within-step calendar now (settles_unknown id) = Within-settle_whole id (found id b) refl
  Within-step calendar now (settles id prompt_tokens completion_tokens cached_prompt_tokens) =
      Within-settle_found id (found id b) _ refl

run-Within_extra :
    (limits : BudgetLimits) (calendar : Calendar) (cs : List (Time × BudgetCall)) (extra : ℕ)
    (b : BudgetManager)
    → Within limits extra b
    → Within limits (extra + (run calendar cs b).1) (run calendar cs b).0
unfolding run
run-Within_extra limits calendar [] extra b w = Within-grow limits extra b w 0
run-Within_extra limits calendar ((now, c) ∷ cs) extra b w =
    let after = (step calendar now c b).0 in
    let over = (step calendar now c b).1 in
    let rest = (run calendar cs after).1 in
    let done =
      run-Within_extra limits calendar cs (extra + over) after
        (Within-step limits extra b w calendar now c) in
    let sums : (extra + over) + rest ≡ extra + (over + rest) = omega arith in
    subst (λ n. Within limits n (run calendar cs after).0) sums done

-- If a budget is within its limits, then after any sequence of reservations, releases and
-- settlements, what a day has spent and holds in reserve is at most the daily limit, and likewise
-- for a month, but for what settlements charged beyond their reservations.
pub run-Within :
    (limits : BudgetLimits) (calendar : Calendar) (cs : List (Time × BudgetCall))
    (b : BudgetManager)
    → Within limits 0 b
    → Within limits (run calendar cs b).1 (run calendar cs b).0
run-Within limits calendar cs b w =
    let none_yet : 0 + (run calendar cs b).1 ≡ (run calendar cs b).1 = omega arith in
    subst (λ n. Within limits n (run calendar cs b).0) none_yet
      (run-Within_extra limits calendar cs 0 b w)

-- Whatever part of the prompt was cached, usage within the reserved counts costs at most what was
-- reserved for it, if the price of cached input is at most that of input.
pub cost_bound :
    (price : ModelPrice)
    (prompt_tokens completion_tokens cached_prompt_tokens reserved_prompt maximum_completion : ℕ)
    → cached_price price ≤ price.input_per_million
    → prompt_tokens ≤ reserved_prompt
    → completion_tokens ≤ maximum_completion
    → cost price prompt_tokens completion_tokens cached_prompt_tokens
      ≤ cost price reserved_prompt maximum_completion 0
unfolding cost
cost_bound price p c k q m cheap low few =
    let i = price.input_per_million in
    let cached = min p k in
    let input = mul-le-mul_left cached cheap in
    let joined = add-mul (p - cached) cached i in
    let parts : (p - cached) + cached ≡ p = omega arith in
    let whole : (p - cached) * i + cached * i ≡ p * i = sym joined ∙ ap (λ n. n * i) parts in
    let prompt = mul-le-mul_right i low in
    let completion = mul-le-mul_right price.output_per_million few in
    let zero_cached : min q 0 ≡ 0 = omega arith in
    let all_uncached : q - 0 ≡ q = omega arith in
    let none_cached : 0 * cached_price price ≡ 0 = omega arith in
    rw (zero_cached, all_uncached, none_cached) (omega arith)
