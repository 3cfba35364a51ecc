-- ===== src/Withdrawals/Settling.antt =====
-- The status that a payout's answer, and a later check with the gateway, lead to.
use netcam.Withdrawals.{Outside, Withdrawal, Status, Bank, requested, processing, success, failed}
use netcam.Prelude.{
  or_default, ℕ, Option, List, Bool, patch, find, ◌-◌, ◌≡◌, refl, ◌≢◌, false, ◌&&◌, none, some, [],
  ◌∷◌, ◌++◌, arith, Text, codes, same, count_if, ltb, ◌==◌, if◌then◌else◌,
}
use netcam.Database.{Client, IsPrisma, client-eq, list_client}
use netcam.Gateway.{failed as tx_failed, InitiateResult, StatusResult, TransactionStatus, succeeded}
use netcam.Withdrawals.Service.{
  Admin, has_id, has_id_at, claimed_row, paid_row, failed_row, noted_row, waiting_row, payout_of,
  never_arrived, mark_succeeded, mark_failed, claim, get, pay, settle_sent, settle_answer, settle,
  send,
}

-- The row that a lookup by id finds after an update that keeps ids.
find-patch :
    (p : Withdrawal → Bool) (f : Withdrawal → Withdrawal) (id : ℕ) (ws : List Withdrawal)
    → ((w : Withdrawal) → (f w).id ≡ w.id)
    → (w : Withdrawal) → find (has_id id) ws ≡ some w
    → find (has_id id) (patch p f ws) ≡ some (if p w then f w else w)
find-patch p f id [] same w e = cc
find-patch p f id (v ∷ ws) same w e = ground (arith, same v, find-patch p f id ws same w)

find-holds :
    (id : ℕ) (ws : List Withdrawal) (w : Withdrawal) → find (has_id id) ws ≡ some w → w.id ≡ id
find-holds id [] w h = cc
find-holds id (v ∷ ws) w h = ground (arith, find-holds id ws w)

-- A row that is found is counted by a test that holds of it.
count_if-find :
    (id : ℕ) (s : Status) (ws : List Withdrawal) (w : Withdrawal)
    → find (has_id id) ws ≡ some w
    → w.status ≡ s
    → (count_if (has_id_at id s) ws == 0) ≡ false
count_if-find id s [] w e h = cc
count_if-find id s (v ∷ ws) w e h = ground (arith, count_if-find id s ws w)

abbrev pub by_status : Option TransactionStatus → Status
by_status (some succeeded) = success
by_status (some tx_failed) = failed
by_status _ = processing

-- Where the answer to a payout leads a withdrawal.
abbrev pub after_payout : InitiateResult → Status
after_payout r =
    if r.ok then by_status r.transaction_status else if r.uncertain then processing else failed

-- Where a later check leads it, `age` milliseconds after it was sent.
abbrev pub after_check : ℕ → StatusResult → Status
after_check age s =
    if s.ok
    then by_status s.transaction_status
    else if never_arrived (or_default s.error_message []) && ltb 300000 age
    then failed
    else processing

-- The status of the row with the id.
abbrev pub status_of : ℕ → Bank → Option Status
status_of id b = elim (find (has_id id) b.withdrawals) [ none ↦ none | some w ↦ some w.status ]

module _ (out : Outside) (id : ℕ) (b : Bank) (w : Withdrawal)
    (found : find (has_id id) b.withdrawals ≡ some w) (busy : w.status ≡ processing) where
  status_of-mark_succeeded :
      (t : Option Text) → status_of id (mark_succeeded list_client out id t b) ≡ some success
  unfolding mark_succeeded
  status_of-mark_succeeded t = ground (
    arith,
    find-holds id b.withdrawals w,
    find-patch (has_id_at id processing) (paid_row out t) id b.withdrawals (λ v. refl) w,
  )

  status_of-mark_failed :
      (reason : Text) → status_of id (mark_failed list_client out id reason b) ≡ some failed
  unfolding mark_failed
  status_of-mark_failed reason = ground (
    arith,
    find-holds id b.withdrawals w,
    find-patch (has_id_at id processing) (failed_row out reason) id b.withdrawals (λ v. refl) w,
  )

  find-noted :
      (f : Withdrawal → Withdrawal)
      → ((v : Withdrawal) → (f v).id ≡ v.id)
      → find (has_id id) (patch (has_id id) f b.withdrawals) ≡ some (f w)
  find-noted f same =
      ground (
        arith,
        find-holds id b.withdrawals w,
        find-patch (has_id id) f id b.withdrawals same w found,
      )

status_of-settle_answer :
    (out : Outside) (b : Bank) (w : Withdrawal)
    → find (has_id w.id) b.withdrawals ≡ some w
    → w.status ≡ processing
    → (s : StatusResult)
    → status_of w.id (settle_answer list_client out w s b)
      ≡ some (after_check (out.now - or_default w.sent_at out.now) s)
unfolding settle_answer
status_of-settle_answer out b w found busy s = ground (
  arith,
  status_of-mark_failed out w.id b w found busy
      (codes "Ssentezo never received the payout request"),
  status_of-mark_failed out w.id b w found busy
      (codes "The mobile-money network declined the payout"),
  status_of-mark_succeeded out w.id b w found busy s.financial_transaction_id,
)

abbrev noted : ℕ → InitiateResult → Bank → Bank
noted id r b = record b { withdrawals = patch (has_id id) (noted_row r) b.withdrawals }

module _ (out : Outside) (id : ℕ) (b : Bank) (w : Withdrawal)
    (found : find (has_id id) b.withdrawals ≡ some w) (busy : w.status ≡ processing) where
  status_of-settle_sent :
      (r : InitiateResult)
      → status_of id (settle_sent list_client out id r b) ≡ some (after_payout r)
  unfolding settle_sent
  status_of-settle_sent r =
      let there = find-noted out id b w found busy (noted_row r) (λ v. refl) in
      ground (
        arith,
        there,
        find-noted out id b w found busy (waiting_row r) (λ v. refl),
        status_of-mark_succeeded out id (noted id r b) (noted_row r w) there busy
            r.financial_transaction_id,
        status_of-mark_failed out id (noted id r b) (noted_row r w) there busy
            (codes "Ssentezo rejected the payout"),
        status_of-mark_failed out id b w found busy
            (or_default r.error_message (codes "Ssentezo declined the payout")),
      )

status_of-pay :
    (out : Outside) (id : ℕ) (w : Withdrawal) (b : Bank)
    → find (has_id id) b.withdrawals ≡ some w
    → w.status ≡ processing
    → status_of id (pay list_client out id w b).1
      ≡ some (after_payout (out.initiate_withdrawal (payout_of w)))
unfolding pay get
status_of-pay out id w b found busy =
    let asked = record b { payouts = b.payouts ++ payout_of w ∷ [] } in
    let answer = out.initiate_withdrawal (payout_of w) in
    ground (arith, status_of-settle_sent out id asked w found busy answer)

send_waiting :
    (out : Outside) (id : ℕ) (admin : Admin) (b : Bank) (w : Withdrawal)
    → find (has_id id) b.withdrawals ≡ some w
    → w.status ≡ requested
    → status_of id (send list_client out id admin b).1
      ≡ some (after_payout (out.initiate_withdrawal (payout_of w)))
unfolding send claim get
send_waiting out id admin b w found waits =
    let start = record b {
      withdrawals = patch (has_id_at id requested) (claimed_row out admin) b.withdrawals;
    } in
    let there : find (has_id id) start.withdrawals ≡ some (claimed_row out admin w) = ground (
      arith,
      find-holds id b.withdrawals w,
      find-patch (has_id_at id requested) (claimed_row out admin) id b.withdrawals (λ v. refl) w,
    ) in
    ground (
      arith,
      there,
      count_if-find id requested b.withdrawals w found waits,
      status_of-pay out id (claimed_row out admin w) start there refl,
    )

-- Approving a waiting withdrawal leaves it where the gateway's answer to its payout leads: paid or
-- failed by the status that the answer reports, failed on a definite refusal, and still processing
-- when the answer is uncertain or reports neither.
pub status_of-send :
    (db : Client)
    → IsPrisma db
    → (out : Outside) (id : ℕ) (admin : Admin) (b : Bank) (w : Withdrawal)
    → find (has_id id) b.withdrawals ≡ some w
    → w.status ≡ requested
    → status_of id (send db out id admin b).1
      ≡ some (after_payout (out.initiate_withdrawal (payout_of w)))
status_of-send db lawful out id admin b w found waits =
    rw (client-eq db lawful) (send_waiting out id admin b w found waits)

settle_busy :
    (out : Outside) (b : Bank) (w : Withdrawal)
    → find (has_id w.id) b.withdrawals ≡ some w
    → w.status ≡ processing
    → status_of w.id (settle list_client out w.id b)
      ≡ some (after_check (out.now - or_default w.sent_at out.now) (out.get_status w.id))
unfolding settle
settle_busy out b w found busy =
    ground (arith, status_of-settle_answer out b w found busy (out.get_status w.id))

settle_idle :
    (out : Outside) (id : ℕ) (b : Bank)
    → status_of id b ≢ some processing
    → settle list_client out id b ≡ b
unfolding settle
settle_idle out id b idle = ground arith

-- A later check leaves a processing withdrawal where the gateway's report leads, or fails it when
-- the gateway has no record of it more than five minutes after it was sent; on any other report it
-- is processing still. If the first row with the id is at another status, or there is none,
-- nothing changes.
pub status_of-settle :
    (db : Client)
    → IsPrisma db
    → (out : Outside) (b : Bank)
    → ((w : Withdrawal)
        → find (has_id w.id) b.withdrawals ≡ some w
        → w.status ≡ processing
        → status_of w.id (settle db out w.id b)
          ≡ some (after_check (out.now - or_default w.sent_at out.now) (out.get_status w.id)))
      × ((id : ℕ) → status_of id b ≢ some processing → settle db out id b ≡ b)
status_of-settle db lawful out b =
    rw (client-eq db lawful) (settle_busy out b, λ id. settle_idle out id b)
