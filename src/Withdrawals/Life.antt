-- ===== src/Withdrawals/Life.antt =====
-- What becomes of a withdrawal: over any calls, and by the gateway's answer to its payout.
use netcam.Withdrawals.Transitions.{Evolves-trans, Evolves, IsLater-trans, IsLater-refl, IsLater}
use netcam.Prelude.{List, ℕ, Option, none, arith, ◌∷◌, [], some, zero, suc, ◌≡◌, refl, ◌++◌, same}
use netcam.Withdrawals.{Grouping, Outside, Withdrawal, Bank, IsGrouping}
use mathlib.Core.Path.{subst}
use netcam.Database.{Client, IsPrisma, client-eq, list_client}
use netcam.Withdrawals.Service.{Admin}
use netcam.Withdrawals.Sending.{PaysOut, claimed, claimed-Evolves}
use netcam.Withdrawals.History.{Call, step, run}
use netcam.Withdrawals.Outcomes.{Adds, Outcome, kept, gained, paid, added, added_paid, step_lem}

abbrev pub get_elem? : List Withdrawal → ℕ → Option Withdrawal
get_elem? [] i = none
get_elem? (w ∷ ws) zero = some w
get_elem? (w ∷ ws) (suc i) = get_elem? ws i

-- The row at a place, later, is at the same place.
abbrev Persists : List Withdrawal → List Withdrawal → Type 0
Persists ws vs =
    (i : ℕ) (w : Withdrawal)
    → get_elem? ws i ≡ some w
    → (v : Withdrawal) × (get_elem? vs i ≡ some v) × IsLater w v

Persists-refl : (ws : List Withdrawal) → Persists ws ws
Persists-refl ws i w e = (w, e, IsLater-refl w)

Persists-trans : (us vs ws : List Withdrawal) → Persists us vs → Persists vs ws → Persists us ws
Persists-trans us vs ws h k i u e =
    let (v, ev, uv) = h i u e in let (w, ew, vw) = k i v ev in (w, ew, IsLater-trans u v w uv vw)

Evolves-Persists : (ws vs : List Withdrawal) → Evolves ws vs → Persists ws vs
Evolves-Persists [] vs h i w e = absurd (ground arith)
Evolves-Persists (w ∷ ws) [] h i u e = absurd h
Evolves-Persists (w ∷ ws) (v ∷ vs) h zero u e =
    (v, refl, subst (λ r. IsLater r v) (ground arith) h.0)
Evolves-Persists (w ∷ ws) (v ∷ vs) h (suc i) u e = Evolves-Persists ws vs h.1 i u e

append-Persists : (ws vs : List Withdrawal) → Persists ws (ws ++ vs)
append-Persists [] vs i w e = absurd (ground arith)
append-Persists (w ∷ ws) vs zero u e = (u, e, IsLater-refl u)
append-Persists (w ∷ ws) vs (suc i) u e = append-Persists ws vs i u e

PaysOut-Persists :
    (out : Outside) (id : ℕ) (admin : Admin) (b c : Bank)
    → PaysOut out id admin b c
    → Persists b.withdrawals c.withdrawals
PaysOut-Persists out id admin b c p = Evolves-Persists b.withdrawals c.withdrawals (
    Evolves-trans b.withdrawals (claimed out id admin b.withdrawals) c.withdrawals
      (claimed-Evolves out id admin b.withdrawals) p.evolves)

Adds-Persists : (out : Outside) (b c : Bank) → Adds out b c → Persists b.withdrawals c.withdrawals
Adds-Persists out b c a = rw a.adds (append-Persists b.withdrawals (a.row ∷ []))

Outcome-Persists :
    (out : Outside) (b c : Bank) → Outcome out b c → Persists b.withdrawals c.withdrawals
Outcome-Persists out b c (kept k) = Evolves-Persists b.withdrawals c.withdrawals k.evolves
Outcome-Persists out b c (gained payment same) = rw same (Persists-refl b.withdrawals)
Outcome-Persists out b c (paid id admin p) = PaysOut-Persists out id admin b c p
Outcome-Persists out b c (added mid a k) =
    Persists-trans b.withdrawals mid.withdrawals c.withdrawals (Adds-Persists out b mid a)
      (Evolves-Persists mid.withdrawals c.withdrawals k.evolves)
Outcome-Persists out b c (added_paid mid id admin a p) =
    Persists-trans b.withdrawals mid.withdrawals c.withdrawals (Adds-Persists out b mid a)
      (PaysOut-Persists out id admin mid c p)

module _ (groups : Grouping) (sums : IsGrouping groups) where
  run-Persists :
      (calls : List (Outside × Call)) (b : Bank)
      → Persists b.withdrawals (run list_client groups calls b).withdrawals
  unfolding run
  run-Persists [] b = Persists-refl b.withdrawals
  run-Persists ((out, call) ∷ calls) b =
      let c = step list_client groups out call b in
      Persists-trans b.withdrawals c.withdrawals _
        (Outcome-Persists out b c (step_lem groups sums out b call)) (run-Persists calls c)

-- Whatever is called, the withdrawal at a place of the table is later found there with its id,
-- amount, fee, phone number and requester unchanged, at a status that its own leads to: requested
-- to any, processing to success or failed, and from the four final ones to none.
pub run-IsLater :
    (db : Client)
    → IsPrisma db
    → (groups : Grouping) → IsGrouping groups
    → (calls : List (Outside × Call)) (b : Bank) (i : ℕ) (w : Withdrawal)
    → get_elem? b.withdrawals i ≡ some w
    → (v : Withdrawal) × (get_elem? (run db groups calls b).withdrawals i ≡ some v) × IsLater w v
run-IsLater db lawful groups sums calls b i w e =
    rw (client-eq db lawful) (run-Persists groups sums calls b i w e)
