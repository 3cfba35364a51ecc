-- ===== src/Withdrawals/Payouts.antt =====
-- No withdrawal is ever paid out twice.
use netcam.Prelude.{
  ℕ, List, arith, Bool, count_if, ◌+◌, ◌≤◌, ◌≡◌, refl, ◌&&◌, not, [], ◌∷◌, ◌++◌, same, ◌==◌,
}
use mathlib.Core.Path.{subst}
use netcam.Database.{Client, IsPrisma, client-eq, list_client}
use netcam.Withdrawals.{Withdrawal, Bank, Outside, Payout, Grouping, IsGrouping, is_at, requested}
use netcam.Withdrawals.Service.{Admin, has_id, has_id_at, payout_of}
use netcam.Withdrawals.Transitions.{Evolves, Keeps}
use netcam.Withdrawals.Sending.{PaysOut, claimed, claimed-Evolves}
use netcam.Withdrawals.History.{Call, AreFresh, step, run, empty}
use netcam.Withdrawals.Outcomes.{Adds, Outcome, kept, gained, paid, added, added_paid, step_lem}

abbrev pub is_for : ℕ → Payout → Bool
is_for id p = p.external_reference == id

-- How often a payout of the withdrawal was asked for.
abbrev pub times_paid : ℕ → Bank → ℕ
times_paid id b = count_if (is_for id) b.payouts

abbrev rows : ℕ → List Withdrawal → ℕ
rows id ws = count_if (has_id id) ws

-- The rows with the id that have left `requested`.
abbrev was_sent : ℕ → Withdrawal → Bool
was_sent id w = w.id == id && not (is_at requested w)

-- Ids are unique, and a payout belongs to a row that is no longer waiting.
pub record IsPaidOnce (b : Bank) : Type 0 where
  pub unique : (id : ℕ) → rows id b.withdrawals ≤ 1
  pub claimed_first : (id : ℕ) → times_paid id b ≤ count_if (was_sent id) b.withdrawals

was_sent-le : (id : ℕ) (ws : List Withdrawal) → count_if (was_sent id) ws ≤ rows id ws
was_sent-le id [] = omega arith
was_sent-le id (w ∷ ws) = ground (arith, was_sent-le id ws)

count_if-append {ℓ} :
    {A : Type ℓ} (p : A → Bool) (xs ys : List A)
    → count_if p (xs ++ ys) ≡ count_if p xs + count_if p ys
count_if-append p [] ys = omega arith
count_if-append p (x ∷ xs) ys = ground (arith, count_if-append p xs ys)

rows-Evolves : (id : ℕ) (ws vs : List Withdrawal) → Evolves ws vs → rows id vs ≡ rows id ws
rows-Evolves id [] [] h = refl
rows-Evolves id [] (v ∷ vs) h = absurd h
rows-Evolves id (w ∷ ws) [] h = absurd h
rows-Evolves id (w ∷ ws) (v ∷ vs) h = ground (arith, rows-Evolves id ws vs h.1)

was_sent-Evolves :
    (id : ℕ) (ws vs : List Withdrawal)
    → Evolves ws vs
    → count_if (was_sent id) ws ≤ count_if (was_sent id) vs
was_sent-Evolves id [] [] h = omega arith
was_sent-Evolves id [] (v ∷ vs) h = absurd h
was_sent-Evolves id (w ∷ ws) [] h = absurd h
was_sent-Evolves id (w ∷ ws) (v ∷ vs) h = ground (arith, was_sent-Evolves id ws vs h.1)

-- Claiming moves each waiting row with the id among those that were sent.
was_sent-claimed :
    (out : Outside) (id : ℕ) (admin : Admin) (ws : List Withdrawal)
    → count_if (was_sent id) (claimed out id admin ws)
      ≡ count_if (was_sent id) ws + count_if (has_id_at id requested) ws
was_sent-claimed out id admin [] = refl
was_sent-claimed out id admin (w ∷ ws) = ground (arith, was_sent-claimed out id admin ws)

Keeps-IsPaidOnce : (b c : Bank) → Keeps b c → IsPaidOnce b → IsPaidOnce c
Keeps-IsPaidOnce b c k h = record {
  unique = λ id. omega (arith, rows-Evolves id b.withdrawals c.withdrawals k.evolves, h.unique id);
  claimed_first = λ id. rw k.same_payouts (
      omega (arith, was_sent-Evolves id b.withdrawals c.withdrawals k.evolves, h.claimed_first id));
}

PaysOut-IsPaidOnce :
    (out : Outside) (id : ℕ) (admin : Admin) (b c : Bank)
    → PaysOut out id admin b c
    → IsPaidOnce b
    → IsPaidOnce c
PaysOut-IsPaidOnce out id admin b c p h =
    let mid = claimed out id admin b.withdrawals in
    let before = claimed-Evolves out id admin b.withdrawals in
    record {
      unique = λ j. omega (
        arith,
        rows-Evolves j b.withdrawals mid before,
        rows-Evolves j mid c.withdrawals p.evolves,
        h.unique j,
      );
      claimed_first = λ j.
          rw (p.pays, count_if-append (is_for j) b.payouts (payout_of p.row ∷ []))
            (ground (
              arith,
              p.is_row,
              p.waited,
              h.claimed_first j,
              was_sent-Evolves j b.withdrawals mid before,
              was_sent-Evolves j mid c.withdrawals p.evolves,
              was_sent-claimed out id admin b.withdrawals,
            ));
    }

Adds-IsPaidOnce :
    (out : Outside) (b c : Bank)
    → Adds out b c
    → rows out.new_id b.withdrawals ≡ 0
    → IsPaidOnce b
    → IsPaidOnce c
Adds-IsPaidOnce out b c a fresh h = record {
  unique = λ id.
      rw (a.adds, count_if-append (has_id id) b.withdrawals (a.row ∷ []))
        (ground (arith, a.is_new, h.unique id));
  claimed_first = λ id.
      rw (a.adds, a.same_payouts, count_if-append (was_sent id) b.withdrawals (a.row ∷ []))
        (omega (arith, h.claimed_first id));
}

Outcome-IsPaidOnce :
    (out : Outside) (b c : Bank)
    → Outcome out b c
    → rows out.new_id b.withdrawals ≡ 0
    → IsPaidOnce b
    → IsPaidOnce c
Outcome-IsPaidOnce out b c (kept k) fresh h = Keeps-IsPaidOnce b c k h
Outcome-IsPaidOnce out b c (gained payment same) fresh h =
    rw same (record { unique = h.unique; claimed_first = h.claimed_first })
Outcome-IsPaidOnce out b c (paid id admin p) fresh h = PaysOut-IsPaidOnce out id admin b c p h
Outcome-IsPaidOnce out b c (added mid a k) fresh h =
    Keeps-IsPaidOnce mid c k (Adds-IsPaidOnce out b mid a fresh h)
Outcome-IsPaidOnce out b c (added_paid mid id admin a p) fresh h =
    PaysOut-IsPaidOnce out id admin mid c p (Adds-IsPaidOnce out b mid a fresh h)

module _ (groups : Grouping) (sums : IsGrouping groups) where
  run_lem :
      (calls : List (Outside × Call)) (b : Bank)
      → AreFresh list_client groups calls b
      → IsPaidOnce b
      → IsPaidOnce (run list_client groups calls b)
  unfolding run
  run_lem [] b fresh h = h
  run_lem ((out, call) ∷ calls) b fresh h =
      run_lem calls (step list_client groups out call b) fresh.1
        (Outcome-IsPaidOnce out b _ (step_lem groups sums out b call) fresh.0 h)

empty-IsPaidOnce : IsPaidOnce empty
empty-IsPaidOnce = record { unique = λ id. omega arith; claimed_first = λ id. omega arith }

-- From an empty table, after any calls in any order and with any answers of the gateway, each
-- call bringing a new id, no withdrawal was asked of the gateway more than once.
pub times_paid-run :
    (db : Client)
    → IsPrisma db
    → (groups : Grouping) → IsGrouping groups
    → (calls : List (Outside × Call)) (id : ℕ) → AreFresh db groups calls empty
    → times_paid id (run db groups calls empty) ≤ 1
times_paid-run db lawful groups sums calls id fresh = rw (client-eq db lawful) (
    once (
      run_lem groups sums calls empty
        (subst (λ d. AreFresh d groups calls empty) (client-eq db lawful) fresh) empty-IsPaidOnce))
  where
    once :
        IsPaidOnce (run list_client groups calls empty)
        → times_paid id (run list_client groups calls empty) ≤ 1
    once h =
        let ws = (run list_client groups calls empty).withdrawals in
        omega (arith, h.unique id, h.claimed_first id, was_sent-le id ws)
