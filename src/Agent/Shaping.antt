-- ===== src/Agent/Shaping.antt =====
-- apps/network-agent/src/tc.ts: one class number for each MAC, and the commands of `tc`.
use netcam.Agent.Shell.{is_mac, is_interface}
use netcam.Prelude.Strings.{upper}
use netcam.Prelude.{
  ℕ, suc, ◌+◌, ◌*◌, ◌/◌, max, Bool, ◌||◌, not, Option, none, some, List, [], ◌∷◌, ◌++◌, Text, same,
  select, find, Action, pure, throw, gets, ◌>>=◌, ◌>>◌, throw_if, modify, ltb, if◌then◌else◌,
  is_some,
}

abbrev pub default_minor : ℕ
default_minor = 65535

abbrev pub first_minor : ℕ
first_minor = 16

abbrev pub last_minor : ℕ
last_minor = 65520

pub data Direction : Type 0 where
  dst src : Direction

-- The commands, with the arguments that vary.
pub data Command : Type 0 where
  link_add link_up root_del root_add ingress_del ingress_add : (iface : Text) → Command
  redirect : (iface ifb : Text) → Command
  default_class : (iface : Text) (minor burst_kb : ℕ) → Command
  class_replace : (iface : Text) (minor rate_kbit burst_kb : ℕ) → Command
  fair_queue : (iface : Text) (minor handle : ℕ) → Command
  filter_del : (iface : Text) (prio : ℕ) → Command
  filter_add : (iface : Text) (prio : ℕ) (direction : Direction) (mac : Text) → Command
  class_del : (iface : Text) (minor : ℕ) → Command

-- `await run(c)`, and `await run(c).catch(...)`.
pub data Step : Type 0 where
  must may : Command → Step

pub record Entry : Type 0 where
  pub mac : Text
  pub minor : ℕ

pub record Shaper : Type 0 where
  pub minor_by_mac : List Entry
  -- the end of `freeMinors` comes first
  pub free_minors : List ℕ
  pub next_minor : ℕ
  pub ran : List Command

pub data Error : Type 0 where
  bad_mac bad_interface no_minor command_failed : Error

-- The two interfaces of a router.
pub record Link : Type 0 where
  pub vlan_interface : Text
  pub ifb_interface : Text

abbrev pub has_mac : Text → Entry → Bool
has_mac mac e = same e.mac mac

-- The number that is handed out next, and what is left.
abbrev pub next_free : Shaper → ℕ × Shaper
next_free b = elim b.free_minors [
  | [] ↦ (b.next_minor, record b { next_minor = suc b.next_minor })
  | m ∷ ms ↦ (m, record b { free_minors = ms })
]

unfoldable pub allocate_minor : Text → Action Shaper Error ℕ
allocate_minor mac b = elim (find (has_mac mac) b.minor_by_mac) [
  | some e ↦ pure e.minor b
  | none ↦
      let (minor, b') = next_free b in
      if ltb last_minor minor
      then throw no_minor b'
      else pure minor (record b' {
        minor_by_mac = b'.minor_by_mac ++ (record { mac = mac; minor = minor }) ∷ [];
      })
]

-- `burstFor`, in kilobytes: 20 ms of the rate, and 16 at least. 2.5 bytes a kbit, rounded.
abbrev pub burst_for : ℕ → ℕ
burst_for kbps = (max 16384 ((5 * kbps + 1) / 2) + 1023) / 1024

abbrev pub reset_root : Text → List Step
reset_root iface =
    may (root_del iface)
    ∷ must (root_add iface)
    ∷ must (default_class iface default_minor (burst_for 20000))
    ∷ may (fair_queue iface default_minor 65534)
    ∷ []

abbrev pub class_and_filter : Text → ℕ → ℕ → Direction → Text → Bool → List Step
class_and_filter iface minor kbps direction mac had_class =
    must (class_replace iface minor (max 8 kbps) (burst_for kbps))
    ∷ may (fair_queue iface minor minor)
    ∷ (if had_class
        then []
        else may (filter_del iface minor) ∷ must (filter_add iface minor direction mac) ∷ [])

abbrev pub unshape : Text → ℕ → List Step
unshape iface minor = may (filter_del iface minor) ∷ may (class_del iface minor) ∷ []

abbrev pub root_steps : Link → List Step
root_steps r =
    may (link_add r.ifb_interface) ∷ must (link_up r.ifb_interface) ∷ reset_root r.vlan_interface
    ++ reset_root r.ifb_interface
    ++ may (ingress_del r.vlan_interface)
      ∷ must (ingress_add r.vlan_interface)
      ∷ must (redirect r.vlan_interface r.ifb_interface)
      ∷ []

-- Moves every class number to the free ones, in the order of the map.
abbrev pub freed : List Entry → List ℕ → List ℕ
freed [] free = free
freed (e ∷ es) free = freed es (e.minor ∷ free)

-- The end of `removeShapingForMac`.
unfoldable pub end_removal : Entry → Shaper → Shaper
end_removal e b = record b {
  minor_by_mac = select (λ x. not (has_mac e.mac x)) b.minor_by_mac;
  free_minors = e.minor ∷ b.free_minors;
}

module _ (fails : Command → Bool) where
  unfoldable pub perform : List Step → Action Shaper Error (Unit {0})
  perform [] b = pure tt b
  perform (must c ∷ steps) b =
      let rest = perform steps (record b { ran = b.ran ++ c ∷ [] }) in
      if fails c then throw command_failed b else rest
  perform (may c ∷ steps) b =
      perform steps (if fails c then b else record b { ran = b.ran ++ c ∷ [] })

  unfoldable pub upsert_class_and_filter :
      Text → ℕ → ℕ → Direction → Text → Bool → Action Shaper Error (Unit {0})
  upsert_class_and_filter iface minor kbps direction mac had_class b =
      if is_interface iface
      then perform (class_and_filter iface minor kbps direction mac had_class) b
      else throw bad_interface b

  unfoldable pub ensure_shaping_for_router : Link → Action Shaper Error (Unit {0})
  ensure_shaping_for_router r = do
    throw_if (not (is_interface r.vlan_interface)) bad_interface
    throw_if (not (is_interface r.ifb_interface)) bad_interface
    perform (root_steps r)
    modify (λ b. record b { minor_by_mac = []; free_minors = freed b.minor_by_mac b.free_minors })

  -- Returns whether the MAC had a class.
  unfoldable pub apply_shaping_for_mac : Link → Text → ℕ → ℕ → Action Shaper Error Bool
  apply_shaping_for_mac r mac down_kbps up_kbps = do
    throw_if (not (is_mac mac)) bad_mac
    let safe_mac = upper mac
    had_class ← gets (λ b. is_some (find (has_mac safe_mac) b.minor_by_mac))
    minor ← allocate_minor safe_mac
    upsert_class_and_filter r.vlan_interface minor down_kbps dst safe_mac had_class
    upsert_class_and_filter r.ifb_interface minor up_kbps src safe_mac had_class
    pure had_class

  -- `removeShapingForMac` up to its last command: what other calls do to the numbers before it ends
  -- comes between this and `end_removal`. Returns the number that was read, if the MAC had one.
  unfoldable pub begin_removal : Link → Text → Action Shaper Error (Option Entry)
  begin_removal r mac = do
    throw_if (not (is_mac mac)) bad_mac
    let safe_mac = upper mac
    entry ← gets (λ b. find (has_mac safe_mac) b.minor_by_mac)
    elim entry [
      | none ↦ pure none
      | some e ↦ do
        throw_if (not (is_interface r.vlan_interface) || not (is_interface r.ifb_interface))
            bad_interface
        perform (unshape r.vlan_interface e.minor ++ unshape r.ifb_interface e.minor)
        pure (some (record { mac = safe_mac; minor = e.minor }))
    ]

  -- A removal that nothing comes between.
  unfoldable pub remove_shaping_for_mac : Link → Text → Action Shaper Error (Unit {0})
  unfolding begin_removal
  remove_shaping_for_mac r mac = do
    entry ← begin_removal r mac
    elim entry [ none ↦ pure tt | some e ↦ modify (end_removal e) ]
