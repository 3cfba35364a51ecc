-- ===== src/Agent/Usage.antt =====
-- apps/network-agent/src/usage.ts: the bytes of a device, over time and across apps. The shares are
-- floating-point numbers, whose arithmetic comes from outside.
use netcam.Agent.Config.{RouterVlanConfig, ip_in_subnet}
use netcam.Prelude.{
  ℕ, ◌-◌, Bool, Option, none, some, List, [], ◌∷◌, ◌++◌, Text, codes, same, length, any, ltb, leb,
  if◌then◌else◌, ◌&&◌, upsert,
}

pub record RatePoint : Type 0 where
  pub t : ℕ
  pub down : ℕ
  pub up : ℕ

pub record Counter : Type 0 where
  pub down : ℕ
  pub up : ℕ

-- The floating-point numbers, with the operations on them that are used.
pub record Doubles (F : Type 0) : Type 0 where
  pub whole : ℕ → F
  pub plus : F → F → F
  pub minus : F → F → F
  pub times : F → F → F
  pub over : F → F → F
  pub least : F → F → F
  pub is_less : F → F → Bool

-- An entry of a map from apps to bytes, in one direction.
pub record AppBytes (F : Type 0) : Type 0 where
  pub app : Text
  pub bytes : F

abbrev pub history_points : ℕ
history_points = 120

abbrev pub unattributed : Text
unattributed = codes "Other"

abbrev pub is_lan_address : List RouterVlanConfig → Text → Bool
is_lan_address networks ip = any (ip_in_subnet ip) networks

abbrev pub without_first : List RatePoint → List RatePoint
without_first [] = []
without_first (p ∷ ps) = ps

unfoldable pub push : List RatePoint → RatePoint → List RatePoint
push history point =
    let longer = history ++ point ∷ [] in
    if ltb history_points (length longer) then without_first longer else longer

-- What was counted since the last tick; a counter that went down starts anew.
abbrev pub since_last : Option ℕ → ℕ → ℕ
since_last none current = 0
since_last (some previous) current = if leb previous current then current - previous else 0

abbrev pub billed_since : Option Counter → Counter → Counter
billed_since none current = record { down = 0; up = 0 }
billed_since (some previous) current = record {
  down = since_last (some previous.down) current.down;
  up = since_last (some previous.up) current.up;
}

module _ {F : Type 0} (d : Doubles F) where
  -- `add`
  abbrev pub add_bytes : Text → F → List (AppBytes F) → List (AppBytes F)
  add_bytes app n =
      upsert (λ e. same e.app app) (record { app = app; bytes = d.whole 0 })
        (λ e. record e { bytes = d.plus e.bytes n })

  -- `if (v > 0) add(result, app, v)`, for each that was seen
  abbrev pub add_shares : F → List (AppBytes F) → List (AppBytes F) → List (AppBytes F)
  add_shares scale [] result = result
  add_shares scale (c ∷ seen) result =
      let v = d.times c.bytes scale in
      add_shares scale seen (if d.is_less (d.whole 0) v then add_bytes c.app v result else result)

  -- `reduce((sum, c) => sum + c[dir], sum)`
  abbrev pub add_up : F → List (AppBytes F) → F
  add_up sum [] = sum
  add_up sum (c ∷ seen) = add_up (d.plus sum c.bytes) seen

  abbrev pub attributed : List (AppBytes F) → F
  attributed = add_up (d.whole 0)

  -- One direction of `splitAcrossApps`.
  unfoldable pub split_across_apps : F → List (AppBytes F) → List (AppBytes F)
  split_across_apps billed seen =
      let total = attributed seen in
      let scale =
        if d.is_less billed total && d.is_less (d.whole 0) total
        then d.over billed total
        else d.whole 1 in
      let rest = d.minus billed (d.least total billed) in
      let shares = add_shares scale seen [] in
      if d.is_less (d.whole 0) rest then add_bytes unattributed rest shares else shares
