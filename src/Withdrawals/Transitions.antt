-- ===== src/Withdrawals/Transitions.antt =====
-- How the rows of the table may change: the life of a withdrawal.
use netcam.Prelude.{
  List, arith, Bool, ◌∷◌, true, ◌≡◌, refl, ◌∙◌, inl, inr, false, [], patch, Bool-cases,
}
use netcam.Withdrawals.{
  Withdrawal, Bank, Status, same_status, requested, processing, success, failed,
}

-- `can_become s t`: a withdrawal at s may be found at t later.
abbrev pub can_become : Status → Status → Bool
can_become requested _ = true
can_become processing processing = true
can_become processing success = true
can_become processing failed = true
can_become processing _ = false
can_become s t = same_status s t

pub can_become_trans :
    (s t u : Status) → can_become s t ≡ true → can_become t u ≡ true → can_become s u ≡ true
can_become_trans s t u h k = ground arith

-- A row later: the same withdrawal, at a status that it may have moved to.
pub record IsLater (w v : Withdrawal) : Type 0 where
  pub same_id : v.id ≡ w.id
  pub same_amount : v.amount_ugx ≡ w.amount_ugx
  pub same_fee : v.fee_ugx ≡ w.fee_ugx
  pub same_phone : v.phone_number ≡ w.phone_number
  pub same_owner : v.requested_by_id ≡ w.requested_by_id
  pub status_moves : can_become w.status v.status ≡ true

pub IsLater-refl : (w : Withdrawal) → IsLater w w
IsLater-refl w = ground arith

pub IsLater-trans : (u v w : Withdrawal) → IsLater u v → IsLater v w → IsLater u w
IsLater-trans u v w h k = ground (arith, can_become_trans u.status v.status w.status)

-- The same rows in the same order, each later.
abbrev pub Evolves : List Withdrawal → List Withdrawal → Type 0
Evolves [] [] = Unit
Evolves (w ∷ ws) (v ∷ vs) = IsLater w v × Evolves ws vs
Evolves _ _ = ⊥

pub Evolves-refl : (ws : List Withdrawal) → Evolves ws ws
Evolves-refl [] = tt
Evolves-refl (w ∷ ws) = (IsLater-refl w, Evolves-refl ws)

pub Evolves-trans : (us vs ws : List Withdrawal) → Evolves us vs → Evolves vs ws → Evolves us ws
Evolves-trans [] [] ws h k = k
Evolves-trans [] (v ∷ vs) ws h k = absurd h
Evolves-trans (u ∷ us) [] ws h k = absurd h
Evolves-trans (u ∷ us) (v ∷ vs) [] h k = absurd k
Evolves-trans (u ∷ us) (v ∷ vs) (w ∷ ws) h k =
    (IsLater-trans u v w h.0 k.0, Evolves-trans us vs ws h.1 k.1)

pub patch-Evolves :
    (p : Withdrawal → Bool) (f : Withdrawal → Withdrawal) (ws : List Withdrawal)
    → ((w : Withdrawal) → p w ≡ true → IsLater w (f w))
    → Evolves ws (patch p f ws)
patch-Evolves p f [] moves = tt
patch-Evolves p f (w ∷ ws) moves = (
  elim (Bool-cases (p w)) [
    | inl passes ↦ rw passes (moves w passes)
    | inr stays ↦ rw stays (IsLater-refl w)
  ],
  patch-Evolves p f ws moves,
)

-- What every operation but `send` and `request` does: rows evolve, and no money moves in or out.
pub record Keeps (b c : Bank) : Type 0 where
  pub evolves : Evolves b.withdrawals c.withdrawals
  pub same_payouts : c.payouts ≡ b.payouts
  pub same_payments : c.payments ≡ b.payments

pub Keeps-refl : (b : Bank) → Keeps b b
Keeps-refl b = record {
  evolves = Evolves-refl b.withdrawals;
  same_payouts = refl;
  same_payments = refl;
}

pub Keeps-trans : (a b c : Bank) → Keeps a b → Keeps b c → Keeps a c
Keeps-trans a b c h k = record {
  evolves = Evolves-trans a.withdrawals b.withdrawals c.withdrawals h.evolves k.evolves;
  same_payouts = k.same_payouts ∙ h.same_payouts;
  same_payments = k.same_payments ∙ h.same_payments;
}
