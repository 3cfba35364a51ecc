-- ===== src/Withdrawals/Balance.antt =====
-- The balance that the service computes from grouped sums is the one that the rows define.
use netcam.Prelude.{
  if◌then◌else◌, List, ℕ, sum_of, select, ◌+◌, ◌-◌, ◌≤◌, ◌≡◌, refl, [], ◌∷◌, arith,
}
use netcam.Database.{Client, IsPrisma}
use netcam.Withdrawals.{
  StatusSum, has_status, is_at, Grouping, IsGrouping, both, is_earned, holding, includes, Status,
  balance, Withdrawal, Bank, sum_statuses, requested, success, Earning, processing,
}

-- What a withdrawal takes out of the balance.
abbrev pub charge : Withdrawal → ℕ
charge w = w.amount_ugx + w.fee_ugx

abbrev pub hold : Withdrawal → ℕ
hold w = if includes holding w.status then charge w else 0

abbrev pub held : List Withdrawal → ℕ
held = sum_of hold

abbrev pub earned : Bank → ℕ
earned b = sum_of (λ p. p.amount_ugx) (select is_earned b.payments)

-- The charges of the rows at one status.
abbrev charged : Status → List Withdrawal → ℕ
charged s ws =
    sum_of (λ w. w.amount_ugx) (select (is_at s) ws) + sum_of (λ w. w.fee_ugx) (select (is_at s) ws)

held-charged :
    (ws : List Withdrawal)
    → held ws ≡ charged requested ws + charged processing ws + charged success ws
held-charged [] = refl
held-charged (w ∷ ws) = ground (arith, held-charged ws)

abbrev grouped : Status → List StatusSum → ℕ
grouped s rows =
    sum_of (λ r. r.amount_ugx) (select (has_status s) rows)
    + sum_of (λ r. r.fee_ugx) (select (has_status s) rows)

sum_holding :
    (rows : List StatusSum)
    → sum_statuses holding both rows
      ≡ grouped requested rows + grouped processing rows + grouped success rows
sum_holding [] = refl
sum_holding (r ∷ rows) = ground (arith, sum_holding rows)

sum_on_hold :
    (rows : List StatusSum)
    → sum_statuses (requested ∷ processing ∷ []) both rows
      ≡ grouped requested rows + grouped processing rows
sum_on_hold [] = refl
sum_on_hold (r ∷ rows) = ground (arith, sum_on_hold rows)

sum_success :
    (rows : List StatusSum)
    → sum_statuses (success ∷ []) (λ r. r.amount_ugx) rows
        + sum_statuses (success ∷ []) (λ r. r.fee_ugx) rows
      ≡ grouped success rows
sum_success [] = refl
sum_success (r ∷ rows) = ground (arith, sum_success rows)

module _ (db : Client) (lawful : IsPrisma db) (groups : Grouping) (sums : IsGrouping groups) where
  held-grouped :
      (b : Bank)
      → let rows = groups b.withdrawals in
        held b.withdrawals ≡ grouped requested rows + grouped processing rows + grouped success rows
  held-grouped b = omega (
    arith,
    held-charged b.withdrawals,
    sums.amounts requested b.withdrawals,
    sums.amounts processing b.withdrawals,
    sums.amounts success b.withdrawals,
    sums.fees requested b.withdrawals,
    sums.fees processing b.withdrawals,
    sums.fees success b.withdrawals,
  )

  -- What is available is what was earned by mobile money, less the amount and the fee of every
  -- withdrawal that is requested, processing or paid; where those exceed the earnings it is 0.
  pub balance-available :
      (b : Bank) → (balance db groups b).available_ugx ≡ earned b - held b.withdrawals
  unfolding balance
  balance-available b = omega (
    arith,
    lawful.sums Earning is_earned (λ p. p.amount_ugx) b.payments,
    sum_holding (groups b.withdrawals),
    held-grouped b,
  )

  -- The parts of the balance add up to what is held, and with what is available to what was earned,
  -- as long as no more is held than earned.
  pub balance_accounts :
      (b : Bank)
      → held b.withdrawals ≤ earned b
      → let v = balance db groups b in
        (v.on_hold_ugx + v.withdrawn_ugx + v.fees_paid_ugx ≡ held b.withdrawals)
        × (v.available_ugx + v.on_hold_ugx + v.withdrawn_ugx + v.fees_paid_ugx ≡ v.earned_ugx)
  unfolding balance
  balance_accounts b enough = omega (
    arith,
    lawful.sums Earning is_earned (λ p. p.amount_ugx) b.payments,
    sum_holding (groups b.withdrawals),
    sum_on_hold (groups b.withdrawals),
    sum_success (groups b.withdrawals),
    held-grouped b,
  )
