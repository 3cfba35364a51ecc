-- ===== src/Vouchers/Slots.antt =====
-- What the steps of a redemption do to the number of slots that are held on a voucher.
use netcam.Prelude.{
  ℕ, suc, ◌+◌, ◌≤◌, ◌≡◌, refl, inl, inr, Bool, true, false, ◌&&◌, Option, none, some, List, [], ◌∷◌,
  ◌++◌, arith, Text, same, length, any, select, count_if, find, patch, All, ◌==◌, Bool-cases,
  if◌then◌else◌,
}
use netcam.Vouchers.{Device, has_id, is_for, holds_slot}
use netcam.Vouchers.Redeem.{
  RedeemInput, insert_stale, stalest_first, holds, released_row, returned_row, seen_row,
}

abbrev pub in_use : ℕ → List Device → ℕ
in_use v ds = count_if (λ d. is_for v d && holds_slot d) ds

abbrev pub with_mac : ℕ → Text → Device → Bool
with_mac v mac d = is_for v d && same d.mac_address mac

-- The keys of the table: the id, and the voucher with the MAC.
pub record IsKeyed (v : ℕ) (mac : Text) (ds : List Device) : Type 0 where
  pub ids : (i : ℕ) → count_if (has_id i) ds ≤ 1
  pub macs : count_if (with_mac v mac) ds ≤ 1

-- The device itself, still holding a slot, is among the rows.
abbrev pub is_there : ℕ → Text → List Device → Device → Bool
is_there v mac ds d = any (λ e. e.id == d.id && holds v mac e) ds

length-select : (p : Device → Bool) (ds : List Device) → length (select p ds) ≡ count_if p ds
length-select p [] = refl
length-select p (d ∷ ds) = ground (arith, length-select p ds)

module _ (P : Device → Bool) where
  All-insert_stale :
      (d : Device) (ds : List Device)
      → P d ≡ true
      → All (λ e. P e ≡ true) ds
      → All (λ e. P e ≡ true) (insert_stale d ds)
  All-insert_stale d [] h k = (h, tt)
  All-insert_stale d (e ∷ es) h k = ground (arith, h, k, All-insert_stale d es h k.1)

  pub All-stalest_first :
      (ds : List Device) → All (λ e. P e ≡ true) ds → All (λ e. P e ≡ true) (stalest_first ds)
  All-stalest_first [] k = tt
  All-stalest_first (d ∷ ds) (h, k) =
      All-insert_stale d (stalest_first ds) h (All-stalest_first ds k)

  pub All-find :
      (p : Device → Bool) (ds : List Device) (d : Device)
      → All (λ e. P e ≡ true) ds
      → find p ds ≡ some d
      → P d ≡ true
  All-find p [] d k found = ground arith
  All-find p (e ∷ es) d k found = ground (arith, k, found, All-find p es d k.1)

is_there-cons :
    (v : ℕ) (mac : Text) (x : Device) (ds es : List Device)
    → All (λ e. is_there v mac ds e ≡ true) es
    → All (λ e. is_there v mac (x ∷ ds) e ≡ true) es
is_there-cons v mac x ds [] k = tt
is_there-cons v mac x ds (e ∷ es) (h, k) = (ground (arith, h), is_there-cons v mac x ds es k)

select-is_there :
    (v : ℕ) (mac : Text) (ds : List Device)
    → All (λ e. is_there v mac ds e ≡ true) (select (holds v mac) ds)
select-is_there v mac [] = tt
select-is_there v mac (d ∷ ds) =
    All-if (λ e. is_there v mac (d ∷ ds) e ≡ true) (holds v mac d) d (select (holds v mac) ds)
      (λ it. ground (arith, it))
      (is_there-cons v mac d ds (select (holds v mac) ds) (select-is_there v mac ds))
  where
    All-if :
        (P : Device → Type 0) (b : Bool) (d : Device) (ds : List Device)
        → (b ≡ true → P d)
        → All P ds
        → All P (if b then d ∷ ds else ds)
    All-if P true d ds h k = (h refl, k)
    All-if P false d ds h k = k

in_use-released-le :
    (v : ℕ) (i now : ℕ) (ds : List Device)
    → in_use v (patch (has_id i) (released_row now) ds) ≤ in_use v ds
in_use-released-le v i now [] = omega arith
in_use-released-le v i now (d ∷ ds) = ground (arith, in_use-released-le v i now ds)

-- Releasing a device that is there gives a slot back.
in_use-released :
    (v now : ℕ) (mac : Text) (d : Device) (ds : List Device)
    → is_there v mac ds d ≡ true
    → suc (in_use v (patch (has_id d.id) (released_row now) ds)) ≤ in_use v ds
in_use-released v now mac d [] h = ground arith
in_use-released v now mac d (e ∷ ds) h = elim (Bool-cases (is_there v mac ds d)) [
  | inl later ↦ ground (arith, h, in_use-released v now mac d ds later)
  | inr here ↦ ground (arith, h, here, in_use-released-le v d.id now ds)
]

pub in_use-returned :
    (v i now : ℕ) (dto : RedeemInput) (ds : List Device)
    → in_use v (patch (has_id i) (returned_row now dto) ds) ≤ in_use v ds + count_if (has_id i) ds
in_use-returned v i now dto [] = omega arith
in_use-returned v i now dto (d ∷ ds) = ground (arith, in_use-returned v i now dto ds)

pub in_use-seen :
    (v i now : ℕ) (dto : RedeemInput) (ds : List Device)
    → in_use v (patch (has_id i) (seen_row now dto) ds) ≡ in_use v ds
in_use-seen v i now dto [] = refl
in_use-seen v i now dto (d ∷ ds) = ground (arith, in_use-seen v i now dto ds)

pub in_use-snoc :
    (v : ℕ) (ds : List Device) (d : Device) → in_use v (ds ++ d ∷ []) ≤ suc (in_use v ds)
in_use-snoc v [] d = ground arith
in_use-snoc v (e ∷ ds) d = ground (arith, in_use-snoc v ds d)

pub ids-released :
    (i j now : ℕ) (ds : List Device)
    → count_if (has_id j) (patch (has_id i) (released_row now) ds) ≡ count_if (has_id j) ds
ids-released i j now [] = refl
ids-released i j now (d ∷ ds) = ground (arith, ids-released i j now ds)

-- Where the MAC itself holds no slot, the other holders are all.
abbrev own : ℕ → Text → Device → Bool
own v mac d = with_mac v mac d && holds_slot d

in_use-own :
    (v : ℕ) (mac : Text) (ds : List Device)
    → in_use v ds ≡ count_if (holds v mac) ds + count_if (own v mac) ds
in_use-own v mac [] = refl
in_use-own v mac (d ∷ ds) = ground (arith, in_use-own v mac ds)

own-le :
    (v : ℕ) (mac : Text) (ds : List Device) → count_if (own v mac) ds ≤ count_if (with_mac v mac) ds
own-le v mac [] = omega arith
own-le v mac (d ∷ ds) = ground (arith, own-le v mac ds)

-- No device with the MAC, or the only one has no slot.
abbrev pub IsOut : Option Device → Type 0
IsOut none = Unit
IsOut (some d) = holds_slot d ≡ false

own-none :
    (v : ℕ) (mac : Text) (ds : List Device)
    → count_if (with_mac v mac) ds ≤ 1
    → IsOut (find (with_mac v mac) ds)
    → count_if (own v mac) ds ≡ 0
own-none v mac [] u out = refl
own-none v mac (d ∷ ds) u out = elim (Bool-cases (with_mac v mac d)) [
  | inl it ↦ ground (arith, it, u, out, own-le v mac ds)
  | inr other ↦ ground (arith, other, u, out, own-none v mac ds)
]

pub holders-in_use :
    (v : ℕ) (mac : Text) (ds : List Device)
    → IsKeyed v mac ds
    → IsOut (find (with_mac v mac) ds)
    → length (select (holds v mac) ds) ≡ in_use v ds
holders-in_use v mac ds h out =
    omega (arith, length-select (holds v mac) ds, in_use-own v mac ds, own-none v mac ds h.macs out)

-- What `freeSlotIfFull` picks gives back a slot.
pub in_use-picked :
    (v now : ℕ) (mac : Text) (p : Device → Bool) (ds : List Device) (d : Device)
    → find p (stalest_first (select (holds v mac) ds)) ≡ some d
    → suc (in_use v (patch (has_id d.id) (released_row now) ds)) ≤ in_use v ds
in_use-picked v now mac p ds d found =
    let there = is_there v mac ds in
    in_use-released v now mac d ds (
      All-find there p (stalest_first (select (holds v mac) ds)) d
        (All-stalest_first there (select (holds v mac) ds) (select-is_there v mac ds)) found)
