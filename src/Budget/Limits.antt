-- ===== src/Budget/Limits.antt =====
-- How much a budget is used: what was spent on a day or in a month, and what is reserved.
use lemonbot.Prelude.{
  ℕ, String, ◌+◌, ◌-◌, ◌≤◌, ◌≡◌, ◌∙◌, sym, subst, Bool, true, false, some, List, [], ◌∷◌, ◌++◌, ltb,
  ◌==◌, string_eq, nat_eq, arith, Bool-cases, inl, inr, if◌then◌else◌, eq_iff,
}
use lemonbot.Sql.{delete_where, first_where}
use lemonbot.Budget.{
  BudgetLimits, BudgetReservation, BudgetManager, Spend, spend_of, add_spend, reserved_sum, on_day,
  in_month, has_id, put, pop, found, charge, reserve_amount,
}

spend_of-add_spend :
    (key k : String) (n : ℕ) (spend : Spend)
    → spend_of key (add_spend k n spend) ≡ spend_of key spend + (if k == key then n else 0)
unfolding spend_of add_spend
spend_of-add_spend key k n [] = ground arith
spend_of-add_spend key k n ((l, m) ∷ rest) = elim (Bool-cases (l == k)) [
  | inl e ↦ let same : l ≡ k = (eq_iff l k).0 e in rw e (rw same (ground arith))
  | inr e ↦ elim (Bool-cases (l == key)) [
    | inr f ↦ rw e (rw f (spend_of-add_spend key k n rest))
    | inl f ↦
        let same : l ≡ key = (eq_iff l key).0 f in
        elim (Bool-cases (k == key)) [
          | inr g ↦ rw e (rw f (rw g (omega arith)))
          | inl g ↦
              let both : l ≡ k = same ∙ sym ((eq_iff k key).0 g) in
              let seen : (l == k) ≡ true = (eq_iff l k).1 both in absurd (cc)
        ]
  ]
]

module _ (test : BudgetReservation → Bool) where
  reserved_sum-append :
      (rs : List BudgetReservation) (r : BudgetReservation)
      → reserved_sum test (rs ++ r ∷ []) ≡ reserved_sum test rs + (if test r then r.amount else 0)
  unfolding reserved_sum
  reserved_sum-append [] r = ground arith
  reserved_sum-append (s ∷ rs) r = ground (arith, reserved_sum-append rs r)

  reserved_sum_delete :
      (other : BudgetReservation → Bool) (rs : List BudgetReservation)
      → reserved_sum test (delete_where other rs) ≤ reserved_sum test rs
  unfolding reserved_sum delete_where
  reserved_sum_delete other [] = omega arith
  reserved_sum_delete other (r ∷ rs) = ground (arith, reserved_sum_delete other rs)

  -- A reservation that is popped leaves its amount.
  reserved_sum_pop :
      (other : BudgetReservation → Bool) (rs : List BudgetReservation) (r : BudgetReservation)
      → first_where other rs ≡ some r
      → reserved_sum test (delete_where other rs) + (if test r then r.amount else 0)
        ≤ reserved_sum test rs
  unfolding reserved_sum delete_where first_where
  reserved_sum_pop other [] r h = absurd (cc)
  reserved_sum_pop other (s ∷ rs) r h = elim (Bool-cases (other s)) [
    | inl e ↦
        let same : s ≡ r = ground arith in
        rw e (rw same (omega (arith, reserved_sum_delete other rs)))
    | inr e ↦ rw e (omega (arith, reserved_sum_pop other rs r (rw e at h)))
  ]

-- What a day, and a month, has used: what was spent and what is reserved.
abbrev pub used_day : String → BudgetManager → ℕ
used_day key b = spend_of key b.daily_spend + reserved_sum (on_day key) b.reservations

abbrev pub used_month : String → BudgetManager → ℕ
used_month key b = spend_of key b.monthly_spend + reserved_sum (in_month key) b.reservations

-- A charge for a reservation that is popped adds at most what it charges beyond it.
charge-used_day :
    (key id : String) (r : BudgetReservation) (n : ℕ) (b : BudgetManager)
    → found id b ≡ some r
    → used_day key (charge r n (pop id b)) ≤ used_day key b + (n - r.amount)
charge-used_day key id r n b h =
    let popped = reserved_sum_pop (on_day key) (has_id id) b.reservations r h in
    let spent = spend_of-add_spend key r.day_key n b.daily_spend in rw spent (ground arith)

charge-used_month :
    (key id : String) (r : BudgetReservation) (n : ℕ) (b : BudgetManager)
    → found id b ≡ some r
    → used_month key (charge r n (pop id b)) ≤ used_month key b + (n - r.amount)
charge-used_month key id r n b h =
    let popped = reserved_sum_pop (in_month key) (has_id id) b.reservations r h in
    let spent = spend_of-add_spend key r.month_key n b.monthly_spend in rw spent (ground arith)

-- No day uses more than the daily limit, and no month more than the monthly one, but for `extra`.
pub record Within (limits : BudgetLimits) (extra : ℕ) (b : BudgetManager) : Type 0 where
  pub same : b.limits ≡ limits
  pub days : (key : String) → used_day key b ≤ limits.daily + extra
  pub months : (key : String) → used_month key b ≤ limits.monthly + extra

module _ (limits : BudgetLimits) (extra : ℕ) (b : BudgetManager) (w : Within limits extra b) where
  pub Within-pop : (id : String) → Within limits extra (pop id b)
  Within-pop id = record {
    same = w.same;
    days = λ key.
        omega (arith, w.days key, reserved_sum_delete (on_day key) (has_id id) b.reservations);
    months = λ key.
        omega (arith, w.months key, reserved_sum_delete (in_month key) (has_id id) b.reservations);
  }

  pub Within-charge :
      (id : String) (r : BudgetReservation) (n : ℕ)
      → found id b ≡ some r
      → Within limits (extra + (n - r.amount)) (charge r n (pop id b))
  Within-charge id r n h = record {
    same = w.same;
    days = λ key. omega (arith, w.days key, charge-used_day key id r n b h);
    months = λ key. omega (arith, w.months key, charge-used_month key id r n b h);
  }

  pub Within-grow : (more : ℕ) → Within limits (extra + more) b
  Within-grow more = record {
    same = w.same;
    days = λ key. omega (arith, w.days key);
    months = λ key. omega (arith, w.months key);
  }

  put-used_day :
      (r : BudgetReservation) (key : String)
      → spend_of r.day_key b.daily_spend + reserved_sum (on_day r.day_key) b.reservations + r.amount
        ≤ limits.daily
      → used_day key (record b { reservations = put r b.reservations }) ≤ limits.daily + extra
  put-used_day r key h =
      let gone = reserved_sum_delete (on_day key) (has_id r.reservation_id) b.reservations in
      let added =
        reserved_sum-append (on_day key) (delete_where (has_id r.reservation_id) b.reservations)
          r in
      let before = w.days key in
      elim (Bool-cases (r.day_key == key)) [
        | inr e ↦ rw (added, e) (omega arith)
        | inl e ↦
            let here =
              subst
                (λ k.
                  spend_of k b.daily_spend + reserved_sum (on_day k) b.reservations + r.amount
                  ≤ limits.daily)
                ((eq_iff r.day_key key).0 e) h in
            rw (added, e) (omega arith)
      ]

  put-used_month :
      (r : BudgetReservation) (key : String)
      → spend_of r.month_key b.monthly_spend
          + reserved_sum (in_month r.month_key) b.reservations
          + r.amount
        ≤ limits.monthly
      → used_month key (record b { reservations = put r b.reservations }) ≤ limits.monthly + extra
  put-used_month r key h =
      let gone = reserved_sum_delete (in_month key) (has_id r.reservation_id) b.reservations in
      let added =
        reserved_sum-append (in_month key) (delete_where (has_id r.reservation_id) b.reservations)
          r in
      let before = w.months key in
      elim (Bool-cases (r.month_key == key)) [
        | inr e ↦ rw (added, e) (omega arith)
        | inl e ↦
            let here =
              subst
                (λ k.
                  spend_of k b.monthly_spend + reserved_sum (in_month k) b.reservations + r.amount
                  ≤ limits.monthly)
                ((eq_iff r.month_key key).0 e) h in
            rw (added, e) (omega arith)
      ]

  pub Within-reserve_amount : (r : BudgetReservation) → Within limits extra (reserve_amount r b).0
  Within-reserve_amount r =
      let daily =
        spend_of r.day_key b.daily_spend
        + reserved_sum (on_day r.day_key) b.reservations
        + r.amount in
      let monthly =
        spend_of r.month_key b.monthly_spend
        + reserved_sum (in_month r.month_key) b.reservations
        + r.amount in
      elim (Bool-cases (ltb b.limits.daily daily)) [
        | inl e ↦ rw e w
        | inr e ↦ elim (Bool-cases (ltb b.limits.monthly monthly)) [
          | inl f ↦ rw e (rw f w)
          | inr f ↦
              let low = subst (λ l. ltb l.daily daily ≡ false) w.same e in
              let low_month = subst (λ l. ltb l.monthly monthly ≡ false) w.same f in
              rw e (
                rw f (record {
                  same = w.same;
                  days = λ key. put-used_day r key (ground arith);
                  months = λ key. put-used_month r key (ground arith);
                }))
        ]
      ]
