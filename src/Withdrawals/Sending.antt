-- ===== src/Withdrawals/Sending.antt =====
-- What `send` does to the table and to the list of payouts.
use netcam.Withdrawals.{Outside, Withdrawal, Bank, requested, withdrawal_sent}
use netcam.Prelude.{
  Option-cases, ◌>>◌, ◌∙◌, ℕ, List, patch, count_if, find, arith, ◌≡◌, refl, ◌≢◌, ◌⊎◌, inl, inr,
  true, false, none, some, [], ◌∷◌, ◌++◌, ◌==◌, Bool-cases,
}
use netcam.Database.{list_client}
use netcam.Withdrawals.Service.{
  Admin, has_id, has_id_at, claimed_row, payout_of, claim, get, settle_sent, pay, send, audit,
}
use netcam.Withdrawals.Transitions.{Evolves, patch-Evolves, Keeps}
use netcam.Withdrawals.Steps.{settle_sent-Keeps}
use netcam.Withdrawals.Balance.{earned}

abbrev pub claimed : Outside → ℕ → Admin → List Withdrawal → List Withdrawal
claimed out id admin ws = patch (has_id_at id requested) (claimed_row out admin) ws

pub claimed-Evolves :
    (out : Outside) (id : ℕ) (admin : Admin) (ws : List Withdrawal)
    → Evolves ws (claimed out id admin ws)
claimed-Evolves out id admin ws =
    patch-Evolves (has_id_at id requested) (claimed_row out admin) ws (λ w h. ground arith)

-- A payout goes out: some row with the id was waiting, and all such rows were claimed before.
pub record PaysOut (out : Outside) (id : ℕ) (admin : Admin) (b c : Bank) : Type 0 where
  pub row : Withdrawal
  pub is_row : row.id ≡ id
  pub waited : count_if (has_id_at id requested) b.withdrawals ≢ 0
  pub evolves : Evolves (claimed out id admin b.withdrawals) c.withdrawals
  pub pays : c.payouts ≡ b.payouts ++ payout_of row ∷ []
  pub same_payments : c.payments ≡ b.payments

find-holds :
    (id : ℕ) (ws : List Withdrawal) (w : Withdrawal) → find (has_id id) ws ≡ some w → w.id ≡ id
find-holds id [] w h = cc
find-holds id (v ∷ ws) w h = ground (arith, find-holds id ws w)

audited-state :
    (id : ℕ) (b : Bank)
    → (((audit withdrawal_sent id >> get list_client id) b).1.withdrawals ≡ b.withdrawals)
      × (((audit withdrawal_sent id >> get list_client id) b).1.payouts ≡ b.payouts)
      × (((audit withdrawal_sent id >> get list_client id) b).1.payments ≡ b.payments)
unfolding get
audited-state id b = ground arith

pub pay_lem :
    (out : Outside) (id : ℕ) (w : Withdrawal) (b : Bank)
    → let c = (pay list_client out id w b).1 in
      Evolves b.withdrawals c.withdrawals
      × (c.payouts ≡ b.payouts ++ payout_of w ∷ [])
      × (c.payments ≡ b.payments)
unfolding pay
pay_lem out id w b =
    let asked = record b { payouts = b.payouts ++ payout_of w ∷ [] } in
    let answer = out.initiate_withdrawal (payout_of w) in
    let kept = settle_sent-Keeps out id answer asked in
    let (rows, sent, earned) = audited-state id (settle_sent list_client out id answer asked) in
    (rw rows kept.evolves, sent ∙ kept.same_payouts, earned ∙ kept.same_payments)

abbrev started : Outside → ℕ → Admin → Bank → Bank
started out id admin b = record b { withdrawals = claimed out id admin b.withdrawals }

module _ (out : Outside) (id : ℕ) (admin : Admin) (b : Bank)
    (waiting : (count_if (has_id_at id requested) b.withdrawals == 0) ≡ false) where
  send_found :
      (w : Withdrawal)
      → find (has_id id) (claimed out id admin b.withdrawals) ≡ some w
      → send list_client out id admin b ≡ pay list_client out id w (started out id admin b)
  unfolding send claim get
  send_found w found = ground arith

  send_missing :
      find (has_id id) (claimed out id admin b.withdrawals) ≡ none
      → (send list_client out id admin b).1 ≡ started out id admin b
  unfolding send claim get
  send_missing missing = ground arith

send_refused :
    (out : Outside) (id : ℕ) (admin : Admin) (b : Bank)
    → (count_if (has_id_at id requested) b.withdrawals == 0) ≡ true
    → (send list_client out id admin b).1 ≡ started out id admin b
unfolding send claim
send_refused out id admin b nothing = ground arith

pub send_lem :
    (out : Outside) (id : ℕ) (admin : Admin) (b : Bank)
    → let c = (send list_client out id admin b).1 in Keeps b c ⊎ PaysOut out id admin b c
send_lem out id admin b = elim (Bool-cases (count_if (has_id_at id requested) b.withdrawals == 0)) [
  | inl nothing ↦ inl (rw (send_refused out id admin b nothing) kept)
  | inr waits ↦ elim (Option-cases (find (has_id id) (claimed out id admin b.withdrawals))) [
    | inl missing ↦ inl (rw (send_missing out id admin b waits missing) kept)
    | inr (w, found) ↦
        inr (rw (send_found out id admin b waits w found) (paid w found (ground arith)))
  ]
]
  where
    kept : Keeps b (started out id admin b)
    kept = record {
      evolves = claimed-Evolves out id admin b.withdrawals;
      same_payouts = refl;
      same_payments = refl;
    }

    paid :
        (w : Withdrawal)
        → find (has_id id) (claimed out id admin b.withdrawals) ≡ some w
        → count_if (has_id_at id requested) b.withdrawals ≢ 0
        → PaysOut out id admin b (pay list_client out id w (started out id admin b)).1
    paid w found waited =
        let start = started out id admin b in
        let (rows, pays, earned) = pay_lem out id w start in
        record {
          row = w;
          is_row = find-holds id (claimed out id admin b.withdrawals) w found;
          waited = waited;
          evolves = rows;
          pays = pays;
          same_payments = earned;
        }
