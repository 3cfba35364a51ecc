-- ===== src/Agent/Written.antt =====
-- What is written in the environment for a list of segments is read back as these segments.
use netcam.Agent.Config.{RouterVlanConfig}
use netcam.Agent.Separators.{
  is_plain, is_plain_code, all-append, all-cons, is_empty-append, all_ok-cons, all-implies,
  split_whole, split_first, trim_lem, not_space, no_colon, digits_plain,
}
use netcam.Prelude.Strings.{trim, is_digit}
use netcam.Prelude.{
  ℕ, ◌≤◌, ◌≡◌, refl, ap, ◌∙◌, Bool, true, false, ◌&&◌, not, some, List, [], ◌∷◌, ◌++◌, map, arith,
  Text, codes, is_empty, all, select, All, ok, ◌==◌, or_default,
}
use netcam.Agent.Networks.{
  Numerals, split, is_within, all_ok, assert_subnet_id, vlan_config, parse_vlan_fields,
  parse_vlan_entry, parse_router_vlans,
}

-- A segment on a VLAN, as the operator writes it.
pub record Spec : Type 0 where
  pub parent : Text
  pub vlan : ℕ
  pub router : Text
  pub subnet : ℕ

pub record IsWritable (s : Spec) : Type 0 where
  pub parent : (is_plain s.parent && not (is_empty s.parent)) ≡ true
  pub router : (is_plain s.router && not (is_empty s.router)) ≡ true
  pub vlan : (1 ≤ s.vlan) × (s.vlan ≤ 4094)
  pub subnet : (1 ≤ s.subnet) × (s.subnet ≤ 254)

-- The documented behaviour of `Number` and of the text of a number, on small whole numbers.
pub record IsNumerals (numbers : Numerals) : Type 0 where
  pub reads : (n : ℕ) → n ≤ 4094 → numbers.read (numbers.show n) ≡ some n
  pub digits : (n : ℕ) → n ≤ 4094 → all is_digit (numbers.show n) ≡ true

module _ (numbers : Numerals) (base : Text) where
  abbrev pub vlan_text : Spec → Text
  vlan_text s =
      s.parent
      ++ (b':' ∷ (numbers.show s.vlan ++ (b':' ∷ (s.router ++ (b':' ∷ numbers.show s.subnet)))))

  -- What such a segment means: its interfaces are named after the VLAN, its addresses after the
  -- subnet.
  abbrev pub spec_config : Spec → RouterVlanConfig
  spec_config s =
      let prefix = base ++ b'.' ∷ numbers.show s.subnet ++ b'.' ∷ [] in
      record {
        parent_interface = s.parent;
        vlan_id = some s.vlan;
        subnet_id = s.subnet;
        router_id = s.router;
        vlan_interface = s.parent ++ b'.' ∷ numbers.show s.vlan;
        ifb_interface = codes "ifb-v" ++ numbers.show s.vlan;
        prefix = prefix;
        gateway_ip = prefix ++ codes "1";
      }

  -- The entries with commas between them.
  abbrev pub written : List Spec → Text
  written [] = []
  written (s ∷ []) = vlan_text s
  written (s ∷ t ∷ ss) = vlan_text s ++ (b',' ∷ written (t ∷ ss))

module _ (numbers : Numerals) (laws : IsNumerals numbers) (base : Text) where
  fields_lem :
      (s : Spec)
      → IsWritable s
      → split b':' (vlan_text numbers base s)
        ≡ s.parent ∷ numbers.show s.vlan ∷ s.router ∷ numbers.show s.subnet ∷ []
  fields_lem s w =
      let parent = no_colon s.parent (ground (arith, w.parent)) in
      let router = no_colon s.router (ground (arith, w.router)) in
      let vlan =
        no_colon (numbers.show s.vlan)
          (digits_plain (numbers.show s.vlan) (laws.digits s.vlan w.vlan.1)) in
      let subnet =
        no_colon (numbers.show s.subnet) (
          digits_plain (numbers.show s.subnet)
            (laws.digits s.subnet (omega (arith, w.subnet.1)))) in
      let last = s.router ++ (b':' ∷ numbers.show s.subnet) in
      rw
        (
          split_first b':' s.parent (numbers.show s.vlan ++ (b':' ∷ last)) parent,
          split_first b':' (numbers.show s.vlan) last vlan,
          split_first b':' s.router (numbers.show s.subnet) router,
          split_whole b':' (numbers.show s.subnet) subnet,
        )
        refl

  subnet_lem :
      (n : ℕ) → (1 ≤ n) × (n ≤ 254) → assert_subnet_id numbers base (some (numbers.show n)) ≡ ok n
  unfolding assert_subnet_id
  subnet_lem n h = rw (assert_subnet_id, laws.reads n (omega (arith, h.1))) (ground (arith, h))

  config_lem :
      (s : Spec)
      → IsWritable s
      → parse_vlan_fields numbers base
          (s.parent ∷ numbers.show s.vlan ∷ s.router ∷ numbers.show s.subnet ∷ [])
        ≡ ok (spec_config numbers base s)
  unfolding parse_vlan_fields
  config_lem s w =
      let parent : is_empty s.parent ≡ false = ground (arith, w.parent) in
      let router : is_empty s.router ≡ false = ground (arith, w.router) in
      let vlan : is_within 1 4094 (some s.vlan) ≡ true = ground (arith, w.vlan) in
      rw
        (
          parse_vlan_fields,
          laws.reads s.vlan w.vlan.1,
          subnet_lem s.subnet w.subnet,
          parent,
          router,
          vlan,
        )
        (ap (λ v. ok (vlan_config numbers base s.parent (or_default v 0) s.router s.subnet))
          (laws.reads s.vlan w.vlan.1))

  entry_lem :
      (s : Spec)
      → IsWritable s
      → parse_vlan_entry numbers base (vlan_text numbers base s) ≡ ok (spec_config numbers base s)
  entry_lem s w = ap (parse_vlan_fields numbers base) (fields_lem s w) ∙ config_lem s w

  -- The characters of an entry.
  text_all :
      (p : ℕ → Bool)
      → ((c : ℕ) → is_plain_code c ≡ true → p c ≡ true)
      → p b':' ≡ true
      → (s : Spec) → IsWritable s
      → all p (vlan_text numbers base s) ≡ true
  text_all p i colon s w =
      let of = all-implies is_plain_code p i in
      let vlan =
        of (numbers.show s.vlan)
          (digits_plain (numbers.show s.vlan) (laws.digits s.vlan w.vlan.1)) in
      let subnet =
        of (numbers.show s.subnet) (
          digits_plain (numbers.show s.subnet)
            (laws.digits s.subnet (omega (arith, w.subnet.1)))) in
      let router = of s.router (ground (arith, w.router)) in
      let parent = of s.parent (ground (arith, w.parent)) in
      let after_router = b':' ∷ numbers.show s.subnet in
      let after_vlan = b':' ∷ (s.router ++ after_router) in
      all-append p s.parent (b':' ∷ (numbers.show s.vlan ++ after_vlan)) parent (
        all-cons p b':' (numbers.show s.vlan ++ after_vlan) colon (
          all-append p (numbers.show s.vlan) after_vlan vlan (
            all-cons p b':' (s.router ++ after_router) colon (
              all-append p s.router after_router router
                (all-cons p b':' (numbers.show s.subnet) colon subnet)))))

  entry_spaceless : (s : Spec) → IsWritable s → all not_space (vlan_text numbers base s) ≡ true
  entry_spaceless s w = text_all not_space (λ c k. ground (arith, k)) refl s w

  written_spaceless :
      (ss : List Spec) → All IsWritable ss → all not_space (written numbers base ss) ≡ true
  written_spaceless [] w = refl
  written_spaceless (s ∷ []) (w, ws) = entry_spaceless s w
  written_spaceless (s ∷ t ∷ ss) (w, ws) =
      all-append not_space (vlan_text numbers base s) (b',' ∷ written numbers base (t ∷ ss))
        (entry_spaceless s w)
        (all-cons not_space b',' (written numbers base (t ∷ ss)) refl
          (written_spaceless (t ∷ ss) ws))

  commas_lem :
      (s : Spec) (ss : List Spec)
      → All IsWritable (s ∷ ss)
      → split b',' (written numbers base (s ∷ ss)) ≡ map (vlan_text numbers base) (s ∷ ss)
  commas_lem s [] (w, ws) =
      split_whole b',' (vlan_text numbers base s)
        (text_all (λ d. not (d == b',')) (λ c k. ground (arith, k)) refl s w)
  commas_lem s (t ∷ ss) (w, ws) =
      split_first b',' (vlan_text numbers base s) (written numbers base (t ∷ ss))
        (text_all (λ d. not (d == b',')) (λ c k. ground (arith, k)) refl s w)
      ∙ ap (λ rest. vlan_text numbers base s ∷ rest) (commas_lem t ss ws)

  entry_filled : (s : Spec) → IsWritable s → is_empty (vlan_text numbers base s) ≡ false
  entry_filled s w = is_empty-append s.parent _ (ground (arith, w.parent))

  trimmed_entries :
      (ss : List Spec)
      → All IsWritable ss
      → select (λ s. not (is_empty s)) (map trim (map (vlan_text numbers base) ss))
        ≡ map (vlan_text numbers base) ss
  trimmed_entries [] w = refl
  trimmed_entries (s ∷ ss) (w, ws) =
      rw (trim_lem (vlan_text numbers base s) (entry_spaceless s w))
        (ground (arith, trimmed_entries ss ws, entry_filled s w))

  parsed_entries :
      (ss : List Spec)
      → All IsWritable ss
      → all_ok (parse_vlan_entry numbers base) (map (vlan_text numbers base) ss)
        ≡ ok (map (spec_config numbers base) ss)
  parsed_entries [] w = refl
  parsed_entries (s ∷ ss) (w, ws) =
      all_ok-cons (parse_vlan_entry numbers base) (vlan_text numbers base s)
        (map (vlan_text numbers base) ss) (spec_config numbers base s)
        (map (spec_config numbers base) ss) (entry_lem s w) (parsed_entries ss ws)

  raw_filled :
      (s : Spec) (ss : List Spec)
      → All IsWritable (s ∷ ss)
      → is_empty (written numbers base (s ∷ ss)) ≡ false
  raw_filled s [] (w, ws) = entry_filled s w
  raw_filled s (t ∷ ss) (w, ws) =
      is_empty-append (vlan_text numbers base s) (b',' ∷ written numbers base (t ∷ ss))
        (entry_filled s w)

  written_lem :
      (ss : List Spec)
      → All IsWritable ss
      → parse_router_vlans numbers base (written numbers base ss)
        ≡ ok (map (spec_config numbers base) ss)
  unfolding parse_router_vlans trim
  written_lem [] w = refl
  written_lem (s ∷ ss) w =
      let raw = written numbers base (s ∷ ss) in
      rw (parse_router_vlans, trim_lem raw (written_spaceless (s ∷ ss) w), raw_filled s ss w)
        (ap
            (λ es.
              all_ok (parse_vlan_entry numbers base) (select (λ e. not (is_empty e)) (map trim es)))
            (commas_lem s ss w)
          ∙ (ap (all_ok (parse_vlan_entry numbers base)) (trimmed_entries (s ∷ ss) w)
              ∙ parsed_entries (s ∷ ss) w))

-- Where the numbers up to 4094 are written in digits and read back as they were, segments on VLANs,
-- each with a parent interface and a router id that are not empty and hold no comma, colon or space,
-- a VLAN from 1 to 4094 and a subnet from 1 to 254, are read back from their entries, written with
-- colons and with commas between them: each with its parent, VLAN, subnet and router, with
-- `<parent>.<vlan>` and `ifb-v<vlan>` as its interfaces and the addresses of `<base>.<subnet>`.
pub parse_router_vlans-written :
    (numbers : Numerals) (laws : IsNumerals numbers) (base : Text) (ss : List Spec)
    → All IsWritable ss
    → parse_router_vlans numbers base (written numbers base ss)
      ≡ ok (map (spec_config numbers base) ss)
parse_router_vlans-written numbers laws base ss w = written_lem numbers laws base ss w
