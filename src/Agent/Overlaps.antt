-- ===== src/Agent/Overlaps.antt =====
-- The class numbers stay apart though the calls of the traffic shaping overlap.
use netcam.Agent.Events.{
  Event, ensure, apply, begin, finish, Busy, take_out, started, ended, given, step, run, is_allowed,
  are_apart, idle,
}
use netcam.Prelude.{
  ℕ, ◌≤◌, ◌≡◌, refl, inl, inr, Bool, true, false, not, Option, none, some, List, [], ◌∷◌, ◌++◌,
  arith, Text, find, any, Option-cases, Bool-cases, pure, ◌>>◌, Result, ◌||◌, ok, err, All, ◌≢◌,
}
use netcam.Prelude.Strings.{upper}
use netcam.Agent.Shaping.{
  Command, Entry, Shaper, Error, has_mac, perform, Link, unshape, ensure_shaping_for_router,
  begin_removal,
}
use netcam.Agent.Shell.{is_mac, is_interface}
use netcam.Agent.Minors.{
  holders, IsAllocated, SameTables, SameTables-IsAllocated, perform-SameTables,
  allocate_minor-IsAllocated,
}
use netcam.Agent.Classes.{apply_shaping_for_mac-Keeps, ensure-IsAllocated, end_removal-IsAllocated}
use netcam.Agent.Removals.{
  Holds, Distinct, allocate_minor-Holds, SameTables-Holds, All-map, AllTaken, DistinctTaken,
  take_out-AllTaken, take_out-DistinctTaken, others_hold, apart_from,
}
use netcam.Agent.Removals.{
  All-map, SameTables-Holds, allocate_minor-Holds, take_out-AllTaken, take_out-DistinctTaken,
  others_hold, apart_from, Holds, Distinct, AllTaken, DistinctTaken,
}

record IsSafe (s : Busy) : Type 0 where
  allocated : IsAllocated s.shaper
  held : All (λ e. Holds e s.shaper) s.removals
  distinct : Distinct s.removals

ended-IsSafe :
    (o : Option (Entry × List Entry)) (s : Busy)
    → AllTaken (λ e. Holds e s.shaper) o
    → DistinctTaken o
    → IsSafe s
    → IsSafe (ended o s)
ended-IsSafe none s h k safe = safe
ended-IsSafe (some (e, es)) s ((x, found, read), hs) (a, d) safe = record {
  allocated = end_removal-IsAllocated e x s.shaper found read safe.allocated;
  held = others_hold e s.shaper es a hs;
  distinct = d;
}

-- What a removal that has begun leaves behind: the numbers, and the one that it read.
abbrev Begins : Text → Shaper → Shaper → Option Entry → Type 0
Begins mac b c none = SameTables b c
Begins mac b c (some e) = SameTables b c × (e.mac ≡ mac) × Holds e c

performed-Begins :
    (mac : Text) (b c : Shaper) (e : Entry) (done : Result Error (Unit {0}))
    → SameTables b c
    → e.mac ≡ mac
    → Holds e c
    → let (result, d) = ((λ (s : Shaper). (done, c)) >> pure (some e)) b in
      Begins mac b d (given result)
performed-Begins mac b c e (ok u) t named holds = (t, named, holds)
performed-Begins mac b c e (err x) t named holds = t

begin_removal-Begins :
    (fails : Command → Bool) (r : Link) (mac : Text) (b : Shaper)
    → let (result, c) = begin_removal fails r mac b in Begins (upper mac) b c (given result)
unfolding begin_removal
begin_removal-Begins fails r mac b = elim (Bool-cases (is_mac mac)) [
  | inr bad ↦ rw (begin_removal, bad) (refl, refl, refl)
  | inl good ↦ elim (Option-cases (find (has_mac (upper mac)) b.minor_by_mac)) [
    | inl missing ↦ rw (begin_removal, good, missing) (refl, refl, refl)
    | inr (x, found) ↦
        let steps = unshape r.vlan_interface x.minor ++ unshape r.ifb_interface x.minor in
        let same_numbers = perform-SameTables fails steps b in
        elim (Bool-cases
          (not (is_interface r.vlan_interface) || not (is_interface r.ifb_interface))) [
            | inl bad ↦ rw (begin_removal, good, found, bad) (refl, refl, refl)
            | inr fine ↦
                rw (begin_removal, good, found, fine)
                  (performed-Begins (upper mac) b (perform fails steps b).1
                    (record { mac = upper mac; minor = x.minor }) (perform fails steps b).0
                    same_numbers refl (x, rw same_numbers.0 found, refl))
          ]
  ]
]

started-IsSafe :
    (mac : Text) (s : Busy) (c : Shaper) (o : Option Entry)
    → any (has_mac mac) s.removals ≡ false
    → Begins mac s.shaper c o
    → IsSafe s
    → IsSafe (record { shaper = c; removals = started o s.removals })
started-IsSafe mac s c none free t safe = record {
  allocated = SameTables-IsAllocated s.shaper c t safe.allocated;
  held = All-map (λ e. SameTables-Holds e s.shaper c t) s.removals safe.held;
  distinct = safe.distinct;
}
started-IsSafe mac s c (some e) free (t, named, holds) safe = record {
  allocated = SameTables-IsAllocated s.shaper c t safe.allocated;
  held = (holds, All-map (λ f. SameTables-Holds f s.shaper c t) s.removals safe.held);
  distinct = (rw named (apart_from mac s.removals free), safe.distinct);
}

ensured-IsSafe :
    (r : Link) (c : Shaper) (es : List Entry)
    → is_allowed (ensure r) es ≡ true
    → IsAllocated c
    → IsSafe (record { shaper = c; removals = es })
ensured-IsSafe r c [] allowed h = record { allocated = h; held = tt; distinct = tt }
ensured-IsSafe r c (e ∷ es) allowed h = absurd (ground (arith, allowed))

step-IsSafe :
    (fails : Command → Bool) (e : Event) (s : Busy)
    → is_allowed e s.removals ≡ true
    → IsSafe s
    → IsSafe (step fails e s)
unfolding step
step-IsSafe fails (ensure r) s allowed safe =
    ensured-IsSafe r (ensure_shaping_for_router fails r s.shaper).1 s.removals allowed
      (ensure-IsAllocated fails r s.shaper safe.allocated)
step-IsSafe fails (apply r mac down up) s allowed safe = record {
  allocated =
      apply_shaping_for_mac-Keeps IsAllocated SameTables-IsAllocated allocate_minor-IsAllocated
        fails r mac down up s.shaper safe.allocated;
  held =
      All-map
        (λ e.
          apply_shaping_for_mac-Keeps (Holds e) (SameTables-Holds e) (allocate_minor-Holds e) fails
            r mac down up s.shaper)
        s.removals safe.held;
  distinct = safe.distinct;
}
step-IsSafe fails (begin r mac) s allowed safe =
    started-IsSafe (upper mac) s (begin_removal fails r mac s.shaper).1
      (given (begin_removal fails r mac s.shaper).0) (ground (arith, allowed))
      (begin_removal-Begins fails r mac s.shaper) safe
step-IsSafe fails (finish mac) s allowed safe =
    ended-IsSafe (take_out mac s.removals) s
      (take_out-AllTaken (λ e. Holds e s.shaper) mac s.removals safe.held)
      (take_out-DistinctTaken mac s.removals safe.distinct) safe

run-IsSafe :
    (events : List ((Command → Bool) × Event)) (s : Busy)
    → are_apart events s ≡ true
    → IsSafe s
    → IsSafe (run events s)
unfolding run
run-IsSafe [] s apart safe = safe
run-IsSafe ((fails, e) ∷ events) s apart safe =
    run-IsSafe events (step fails e s) (ground (arith, apart))
      (step-IsSafe fails e s (ground (arith, apart)) safe)

idle-IsSafe : IsSafe idle
idle-IsSafe = record {
  allocated = record {
    once = λ m. omega arith;
    not_yet = λ m n. refl;
    not_low = λ m n. refl;
    not_held_high = λ m n. refl;
    started = omega arith;
  };
  held = tt;
  distinct = tt;
}

-- However the calls follow each other or overlap, and whichever commands fail: as long as no removal
-- of a MAC begins before the one before it has ended, and no router is set up during a removal, at
-- most one MAC holds a class number, and a number that is held lies from 16 to 65,520, so that it is
-- never that of the default class.
pub holders-run :
    (events : List ((Command → Bool) × Event))
    → are_apart events idle ≡ true
    → (m : ℕ)
    → let held = holders m (run events idle).shaper in
      (held ≤ 1) × (held ≢ 0 → (16 ≤ m) × (m ≤ 65520))
holders-run events apart m =
    let h = (run-IsSafe events idle apart idle-IsSafe).allocated in
    (
      omega (arith, h.once m),
      λ some_held. ground (arith, some_held, h.not_low m, h.not_held_high m),
    )
