-- ===== src/Agent/Segments.antt =====
-- An accepted configuration has one segment for each interface, subnet and router.
use netcam.Prelude.{
  ℕ, ◌+◌, ◌≤◌, ◌≡◌, refl, true, none, List, [], ◌∷◌, arith, Text, same, any, count_if, ◌==◌,
  if◌then◌else◌, ok,
}
use netcam.Agent.Config.{RouterVlanConfig, check_networks, parse_router_networks}

-- How many segments have the interface, the subnet, the router.
abbrev pub on_interface : Text → List RouterVlanConfig → ℕ
on_interface i ns = count_if (λ n. same n.vlan_interface i) ns

abbrev pub on_subnet : ℕ → List RouterVlanConfig → ℕ
on_subnet i ns = count_if (λ n. n.subnet_id == i) ns

abbrev pub for_router : Text → List RouterVlanConfig → ℕ
for_router i ns = count_if (λ n. same n.router_id i) ns

same-eq : (s t : Text) → same s t ≡ true → s ≡ t
same-eq [] [] h = refl
same-eq [] (y ∷ t) h = ground arith
same-eq (x ∷ s) [] h = ground arith
same-eq (x ∷ s) (y ∷ t) h = ground (arith, same-eq s t)

same_refl : (s : Text) → same s s ≡ true
same_refl [] = refl
same_refl (x ∷ s) = ground (arith, same_refl s)

module _ (i : ℕ) where
  subnet_lem :
      (is : List Text) (ss : List ℕ) (rs : List Text) (ns : List RouterVlanConfig)
      → check_networks is ss rs ns ≡ none
      → on_subnet i ns + (if any (λ m. i == m) ss then 1 else 0) ≤ 1
  unfolding check_networks
  subnet_lem is ss rs [] h = ground arith
  subnet_lem is ss rs (n ∷ ns) h =
      ground (arith, h, subnet_lem (n.vlan_interface ∷ is) (n.subnet_id ∷ ss) (n.router_id ∷ rs) ns)

module _ (i : Text) where
  interface_lem :
      (is : List Text) (ss : List ℕ) (rs : List Text) (ns : List RouterVlanConfig)
      → check_networks is ss rs ns ≡ none
      → on_interface i ns + (if any (same i) is then 1 else 0) ≤ 1
  unfolding check_networks
  interface_lem is ss rs [] h = ground arith
  interface_lem is ss rs (n ∷ ns) h = ground (
    arith,
    h,
    same-eq n.vlan_interface i,
    same_refl i,
    interface_lem (n.vlan_interface ∷ is) (n.subnet_id ∷ ss) (n.router_id ∷ rs) ns,
  )

  router_lem :
      (is : List Text) (ss : List ℕ) (rs : List Text) (ns : List RouterVlanConfig)
      → check_networks is ss rs ns ≡ none
      → for_router i ns + (if any (same i) rs then 1 else 0) ≤ 1
  unfolding check_networks
  router_lem is ss rs [] h = ground arith
  router_lem is ss rs (n ∷ ns) h = ground (
    arith,
    h,
    same-eq n.router_id i,
    same_refl i,
    router_lem (n.vlan_interface ∷ is) (n.subnet_id ∷ ss) (n.router_id ∷ rs) ns,
  )

-- If the configuration is accepted, no interface, subnet or router has two of its segments.
pub parse_router_networks_unique :
    (networks accepted : List RouterVlanConfig) (iface router : Text) (subnet : ℕ)
    → parse_router_networks networks ≡ ok accepted
    → (accepted ≡ networks)
      × (on_interface iface accepted ≤ 1)
      × (on_subnet subnet accepted ≤ 1)
      × (for_router router accepted ≤ 1)
unfolding parse_router_networks
parse_router_networks_unique networks accepted iface router subnet h = ground (
  arith,
  h,
  interface_lem iface [] [] [] networks,
  subnet_lem subnet [] [] [] networks,
  router_lem router [] [] [] networks,
)
