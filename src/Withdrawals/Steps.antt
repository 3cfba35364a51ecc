-- ===== src/Withdrawals/Steps.antt =====
-- Each operation moves rows along the life of a withdrawal. The proofs compute with lists.
use netcam.Withdrawals.Transitions.{IsLater, Keeps, Keeps-refl, patch-Evolves, Keeps-trans}
use netcam.Prelude.{
  ℕ, Text, Option, List, Bool, take, Option-cases, arith, patch, codes, select, ◌∷◌, find, refl,
  inl, inr, some, [], Bool-cases,
}
use netcam.Prelude.Strings.{trim}
use netcam.Database.{list_client}
use netcam.Gateway.{InitiateResult, StatusResult, TransactionStatus, succeeded, failed as tx_failed}
use netcam.Withdrawals.{requested, processing, Withdrawal, Bank, Outside}
use netcam.Withdrawals.Service.{
  poll_processing, settle_all, mark_succeeded, settle_sent, mark_failed, settle_answer, settle,
  Admin, has_id, due, has_id_at, noted_row, paid_row, failed_row, waiting_row,
}
use netcam.Withdrawals.Requests.{reject, cancel, resolve, rejected_row, cancelled_row, resolved_row}

pub mark_succeeded-Keeps :
    (out : Outside) (id : ℕ) (t : Option Text) (b : Bank)
    → Keeps b (mark_succeeded list_client out id t b)
unfolding mark_succeeded
mark_succeeded-Keeps out id t b = ground (
  arith,
  patch-Evolves (has_id_at id processing) (paid_row out t) b.withdrawals (λ w h. ground arith),
)

pub mark_failed-Keeps :
    (out : Outside) (id : ℕ) (reason : Text) (b : Bank)
    → Keeps b (mark_failed list_client out id reason b)
unfolding mark_failed
mark_failed-Keeps out id reason b = ground (
  arith,
  patch-Evolves (has_id_at id processing) (failed_row out reason) b.withdrawals
      (λ w h. ground arith),
)

-- Rewriting rows without moving them.
note-Keeps :
    (id : ℕ) (f : Withdrawal → Withdrawal) (b : Bank)
    → ((w : Withdrawal) → IsLater w (f w))
    → Keeps b (record b { withdrawals = patch (has_id id) f b.withdrawals })
note-Keeps id f b moves = record {
  evolves = patch-Evolves (has_id id) f b.withdrawals (λ w _. moves w);
  same_payouts = refl;
  same_payments = refl;
}

noted-Keeps :
    (id : ℕ) (r : InitiateResult) (b : Bank)
    → Keeps b (record b { withdrawals = patch (has_id id) (noted_row r) b.withdrawals })
noted-Keeps id r b = note-Keeps id (noted_row r) b (λ w. ground arith)

pub settle_sent-Keeps :
    (out : Outside) (id : ℕ) (r : InitiateResult) (b : Bank)
    → Keeps b (settle_sent list_client out id r b)
unfolding settle_sent
settle_sent-Keeps out id r b = elim (Bool-cases r.ok) [
  | inl fine ↦
      let noted = record b { withdrawals = patch (has_id id) (noted_row r) b.withdrawals } in
      rw fine (after_noted noted r.transaction_status (noted-Keeps id r b))
  | inr bad ↦ elim (Bool-cases r.uncertain) [
    | inl doubtful ↦ rw (bad, doubtful) (note-Keeps id (waiting_row r) b (λ w. ground arith))
    | inr definite ↦ rw (bad, definite) (mark_failed-Keeps out id _ b)
  ]
]
  where
    after_noted :
        (noted : Bank) (s : Option TransactionStatus)
        → Keeps b noted
        → Keeps b (elim s [
          | some succeeded ↦ mark_succeeded list_client out id r.financial_transaction_id noted
          | some tx_failed ↦
              mark_failed list_client out id (codes "Ssentezo rejected the payout") noted
          | _ ↦ noted
        ])
    after_noted noted (some succeeded) k =
        Keeps-trans b noted _ k (mark_succeeded-Keeps out id r.financial_transaction_id noted)
    after_noted noted (some tx_failed) k =
        Keeps-trans b noted _ k
          (mark_failed-Keeps out id (codes "Ssentezo rejected the payout") noted)
    after_noted noted _ k = k

pub settle_answer-Keeps :
    (out : Outside) (w : Withdrawal) (s : StatusResult) (b : Bank)
    → Keeps b (settle_answer list_client out w s b)
unfolding settle_answer
settle_answer-Keeps out w s b = ground (
  arith,
  Keeps-refl b,
  mark_failed-Keeps out w.id (codes "Ssentezo never received the payout request") b,
  mark_failed-Keeps out w.id (codes "The mobile-money network declined the payout") b,
  mark_succeeded-Keeps out w.id s.financial_transaction_id b,
)

pub settle-Keeps : (out : Outside) (id : ℕ) (b : Bank) → Keeps b (settle list_client out id b)
unfolding settle
settle-Keeps out id b = elim (Option-cases (find (has_id id) b.withdrawals)) [
  | inl missing ↦ ground (arith, Keeps-refl b)
  | inr (w, found) ↦ ground (arith, Keeps-refl b, settle_answer-Keeps out w (out.get_status id) b)
]

settle_all-Keeps :
    (out : ℕ → Outside) (ws : List Withdrawal) (b : Bank)
    → Keeps b (settle_all list_client out ws b)
unfolding settle_all
settle_all-Keeps out [] b = Keeps-refl b
settle_all-Keeps out (w ∷ ws) b =
    Keeps-trans b (settle list_client (out w.id) w.id b) _ (settle-Keeps (out w.id) w.id b)
      (settle_all-Keeps out ws (settle list_client (out w.id) w.id b))

pub poll_processing-Keeps :
    (out : Outside) (each : ℕ → Outside) (b : Bank)
    → Keeps b (poll_processing list_client out each b)
unfolding poll_processing
poll_processing-Keeps out each b =
    settle_all-Keeps each (take 50 (select (due out.now) b.withdrawals)) b

pub reject-Keeps :
    (out : Outside) (id : ℕ) (admin : Admin) (reason : Option Text) (b : Bank)
    → Keeps b (reject list_client out id admin reason b).1
unfolding reject
reject-Keeps out id admin reason b = ground (
  arith,
  patch-Evolves (has_id_at id requested) (rejected_row out admin reason) b.withdrawals
      (λ w h. ground arith),
)

pub cancel-Keeps :
    (out : Outside) (id : ℕ) (admin : Admin) (b : Bank)
    → Keeps b (cancel list_client out id admin b).1
unfolding cancel
cancel-Keeps out id admin b = ground (
  arith,
  Keeps-refl b,
  patch-Evolves (has_id_at id requested) (cancelled_row out) b.withdrawals (λ w h. ground arith),
)

pub resolve-Keeps :
    (out : Outside) (id : ℕ) (paid : Bool) (note : Text) (admin : Admin) (password : Text)
    (b : Bank)
    → Keeps b (resolve list_client out id paid note admin password b).1
unfolding resolve
resolve-Keeps out id paid note admin password b = ground (
  arith,
  Keeps-refl b,
  patch-Evolves (has_id_at id processing) (resolved_row out paid (trim note)) b.withdrawals
      (λ w h. ground arith),
)
