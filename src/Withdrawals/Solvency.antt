-- ===== src/Withdrawals/Solvency.antt =====
-- The money on hold or paid out against what was earned.
use netcam.Prelude.{List, ℕ, max, arith, sum_of-append, ◌≤◌, [], ◌∷◌, same}
use netcam.Withdrawals.{Grouping, Outside, Withdrawal, Bank, IsGrouping}
use netcam.Database.{Client, IsPrisma, client-eq, list_client}
use netcam.Withdrawals.Service.{Admin}
use netcam.Withdrawals.Balance.{charge, hold, held, earned}
use netcam.Withdrawals.Transitions.{IsLater, Evolves}
use netcam.Withdrawals.Sending.{PaysOut, claimed, claimed-Evolves}
use netcam.Withdrawals.History.{Call, step, run}
use netcam.Withdrawals.Outcomes.{Adds, Outcome, kept, gained, paid, added, added_paid, step_lem}

hold-IsLater : (w v : Withdrawal) → IsLater w v → hold v ≤ hold w
hold-IsLater w v h = ground arith

held-Evolves : (ws vs : List Withdrawal) → Evolves ws vs → held vs ≤ held ws
held-Evolves [] [] h = omega arith
held-Evolves [] (v ∷ vs) h = absurd h
held-Evolves (w ∷ ws) [] h = absurd h
held-Evolves (w ∷ ws) (v ∷ vs) h = omega (arith, hold-IsLater w v h.0, held-Evolves ws vs h.1)

held-PaysOut :
    (out : Outside) (id : ℕ) (admin : Admin) (b c : Bank)
    → PaysOut out id admin b c
    → held c.withdrawals ≤ held b.withdrawals
held-PaysOut out id admin b c p = omega (
  arith,
  held-Evolves b.withdrawals _ (claimed-Evolves out id admin b.withdrawals),
  held-Evolves (claimed out id admin b.withdrawals) c.withdrawals p.evolves,
)

held-Adds :
    (out : Outside) (b c : Bank)
    → Adds out b c
    → held c.withdrawals ≤ max (held b.withdrawals) (earned b)
held-Adds out b c a =
    rw (a.adds, sum_of-append hold b.withdrawals (a.row ∷ []))
      (let row_hold : hold a.row ≤ charge a.row = ground arith in omega (arith, a.affordable))

held-Outcome :
    (out : Outside) (b c : Bank)
    → Outcome out b c
    → held c.withdrawals ≤ max (held b.withdrawals) (earned b)
held-Outcome out b c (kept k) = omega (arith, held-Evolves b.withdrawals c.withdrawals k.evolves)
held-Outcome out b c (gained payments same) = rw same (omega arith)
held-Outcome out b c (paid id admin p) = omega (arith, held-PaysOut out id admin b c p)
held-Outcome out b c (added mid a k) =
    omega (arith, held-Adds out b mid a, held-Evolves mid.withdrawals c.withdrawals k.evolves)
held-Outcome out b c (added_paid mid id admin a p) =
    omega (arith, held-Adds out b mid a, held-PaysOut out id admin mid c p)

-- The most that the mobile-money earnings came to before or after one of the calls.
abbrev pub most_earned : Client → Grouping → List (Outside × Call) → Bank → ℕ
most_earned db groups [] b = earned b
most_earned db groups ((out, call) ∷ calls) b =
    max (earned b) (most_earned db groups calls (step db groups out call b))

module _ (groups : Grouping) (sums : IsGrouping groups) where
  run_lem :
      (calls : List (Outside × Call)) (b : Bank)
      → held (run list_client groups calls b).withdrawals
        ≤ max (held b.withdrawals) (most_earned list_client groups calls b)
  unfolding run
  run_lem [] b = omega arith
  run_lem ((out, call) ∷ calls) b = omega (
    arith,
    run_lem calls (step list_client groups out call b),
    held-Outcome out b (step list_client groups out call b) (step_lem groups sums out b call),
  )

-- Whatever is called, in any order and with any answers of the gateway, and whatever happens to the
-- payments meanwhile: the amounts and fees of the withdrawals that are requested, processing or paid
-- never pass the most that the mobile-money earnings have come to at some time, or what they were at
-- the start.
pub held-run :
    (db : Client)
    → IsPrisma db
    → (groups : Grouping) → IsGrouping groups
    → (calls : List (Outside × Call)) (b : Bank)
    → held (run db groups calls b).withdrawals
      ≤ max (held b.withdrawals) (most_earned db groups calls b)
held-run db lawful groups sums calls b = rw (client-eq db lawful) (run_lem groups sums calls b)
