-- ===== src/Agent/Classes.antt =====
-- What the calls of the traffic shaping keep of the class numbers.
use netcam.Prelude.{
  ℕ, ◌+◌, ◌≤◌, ◌≡◌, inl, inr, Bool, List, [], ◌∷◌, arith, Text, count_if, find, ◌==◌, if◌then◌else◌,
  not, some, select, Action, Bool-cases, is_some, Result-cases,
}
use netcam.Agent.Shaping.{
  Step, end_removal, Command, Entry, Shaper, has_mac, allocate_minor, perform, Error, Link, freed,
  ensure_shaping_for_router, apply_shaping_for_mac, Direction, class_and_filter,
  upsert_class_and_filter, dst, src, root_steps,
}
use netcam.Prelude.Strings.{upper}
use netcam.Agent.Shell.{is_mac}
use netcam.Agent.Minors.{SameTables, at, IsAllocated, perform-SameTables, perform-IsAllocated}

-- What depends on the numbers only is kept by whatever leaves the numbers as they are.
module _ (P : Shaper → Type 0) (same_tables : (b c : Shaper) → SameTables b c → P b → P c) where
  abbrev Keeps : {A : Type 0} → Action Shaper Error A → Type 0
  Keeps m = (b : Shaper) → P b → P (m b).1

  perform-Keeps : (fails : Command → Bool) (steps : List Step) → Keeps (perform fails steps)
  perform-Keeps fails steps b h = same_tables b _ (perform-SameTables fails steps b) h

  upsert_class_and_filter-Keeps :
      (fails : Command → Bool) (iface : Text) (minor kbps : ℕ) (d : Direction) (mac : Text)
      (had : Bool)
      → Keeps (upsert_class_and_filter fails iface minor kbps d mac had)
  unfolding upsert_class_and_filter
  upsert_class_and_filter-Keeps fails iface minor kbps d mac had b h =
      ground (arith, h, perform-Keeps fails (class_and_filter iface minor kbps d mac had) b h)

  pub apply_shaping_for_mac-Keeps :
      ((mac : Text) → Keeps (allocate_minor mac))
      → (fails : Command → Bool) (r : Link) (mac : Text) (down up : ℕ)
      → Keeps (apply_shaping_for_mac fails r mac down up)
  unfolding apply_shaping_for_mac
  apply_shaping_for_mac-Keeps allocates fails r mac down up b h = elim (Bool-cases (is_mac mac)) [
    | inr bad ↦ ground (arith, bad, h)
    | inl good ↦
        let safe = upper mac in
        let had = is_some (find (has_mac safe) b.minor_by_mac) in
        let b1 = (allocate_minor safe b).1 in
        let h1 = allocates safe b h in
        elim (Result-cases (allocate_minor safe b).0) [
          | inr (x, none_left) ↦ ground (arith, good, none_left, h1)
          | inl (minor, given) ↦
              let first = upsert_class_and_filter fails r.vlan_interface minor down dst safe had in
              let h2 =
                upsert_class_and_filter-Keeps fails r.vlan_interface minor down dst safe had b1
                  h1 in
              let b2 = (first b1).1 in
              elim (Result-cases (first b1).0) [
                | inr (x, failed) ↦ ground (arith, good, given, failed, h2)
                | inl (u, done) ↦
                    let second =
                      upsert_class_and_filter fails r.ifb_interface minor up src safe had in
                    let h3 =
                      upsert_class_and_filter-Keeps fails r.ifb_interface minor up src safe had b2
                        h2 in
                    ground (arith, good, given, done, h3, Result-cases (second b2).0)
              ]
        ]
  ]

count_if-freed :
    (m : ℕ) (es : List Entry) (free : List ℕ)
    → count_if (λ n. n == m) (freed es free) ≡ count_if (at m) es + count_if (λ n. n == m) free
count_if-freed m [] free = omega arith
count_if-freed m (e ∷ es) free = ground (arith, count_if-freed m es (e.minor ∷ free))

reset-IsAllocated :
    (b : Shaper)
    → IsAllocated b
    → IsAllocated (record b { minor_by_mac = []; free_minors = freed b.minor_by_mac b.free_minors })
reset-IsAllocated b h =
    let all = λ (m : ℕ). count_if-freed m b.minor_by_mac b.free_minors in
    record {
      once = λ m. omega (arith, h.once m, all m);
      not_yet = λ m n. omega (arith, h.not_yet m n, all m);
      not_low = λ m n. omega (arith, h.not_low m n, all m);
      not_held_high = λ m n. omega arith;
      started = h.started;
    }

pub ensure-IsAllocated :
    (fails : Command → Bool) (r : Link) (b : Shaper)
    → IsAllocated b
    → IsAllocated (ensure_shaping_for_router fails r b).1
unfolding ensure_shaping_for_router
ensure-IsAllocated fails r b h =
    let c = perform fails (root_steps r) b in
    let hc = perform-IsAllocated fails (root_steps r) b h in
    ground (arith, h, hc, reset-IsAllocated c.1 hc, Result-cases c.0)

-- Removing a MAC takes its number away once at least, and no number is held more often.
count_if-removed :
    (m : ℕ) (mac : Text) (es : List Entry) (e : Entry)
    → find (has_mac mac) es ≡ some e
    → count_if (at m) (select (λ x. not (has_mac mac x)) es) + (if e.minor == m then 1 else 0)
      ≤ count_if (at m) es
count_if-removed m mac [] e found = ground arith
count_if-removed m mac (x ∷ es) e found =
    ground (arith, count_if-removed m mac es e, count_if-fewer m mac es)
  where
    count_if-fewer :
        (m : ℕ) (mac : Text) (es : List Entry)
        → count_if (at m) (select (λ x. not (has_mac mac x)) es) ≤ count_if (at m) es
    count_if-fewer m mac [] = omega arith
    count_if-fewer m mac (x ∷ es) = ground (arith, count_if-fewer m mac es)

-- A removal that ends while its MAC has the number that it read.
pub end_removal-IsAllocated :
    (e x : Entry) (b : Shaper)
    → find (has_mac e.mac) b.minor_by_mac ≡ some x
    → x.minor ≡ e.minor
    → IsAllocated b
    → IsAllocated (end_removal e b)
unfolding end_removal
end_removal-IsAllocated e x b found read h =
    let less = λ (m : ℕ). count_if-removed m e.mac b.minor_by_mac x found in
    record {
      once = λ m. ground (arith, read, h.once m, less m);
      not_yet = λ m n. ground (arith, read, h.not_yet m n, less m);
      not_low = λ m n. ground (arith, read, h.not_low m n, less m);
      not_held_high = λ m n. ground (arith, h.not_held_high m n, less m);
      started = h.started;
    }
