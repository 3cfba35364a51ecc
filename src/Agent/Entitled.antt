-- ===== src/Agent/Entitled.antt =====
-- What a sync leaves: only devices that the API listed, or that were let in since it began.
use netcam.Agent.Shaping.{Command, apply_shaping_for_mac}
use netcam.Agent.Config.{RouterVlanConfig, find_router}
use netcam.Prelude.Strings.{upper-upper, upper}
use netcam.Prelude.{
  ◌≡◌, refl, inl, inr, Bool, true, List, [], ◌∷◌, arith, Text, same, All, Bool-cases, upsert, ℕ, ap,
  ◌∙◌, not, Option, none, some, select, find, ok, ◌>>=◌, ◌>>◌, Result-cases, ◌≤◌, false, ◌&&◌, map,
  any, count_if, Option-cases, or_default,
}
use netcam.Agent.Admission.{
  NftCommand, AdmittedMac, Gate, run_nft, revoke_mac, AdmitRequest, is_entry, link_of, shaping,
  timeout_seconds, new_entry, admit_mac, drop_old_shaping, admit_on, drop_shaping, revoke_device,
  is_unchanged, holds_for, admit_device, admit_sessions, is_stale, revoke_stale, sync_with_api,
}

-- The keys of the registry are upper case.
abbrev pub is_upper : AdmittedMac → Bool
is_upper e = same e.mac (upper e.mac)

All-upsert :
    {A : Type 0} (P : A → Type 0) (p : A → Bool) (a : A)
    → P a
    → (xs : List A) → All P xs
    → All P (upsert p a (λ x. a) xs)
All-upsert P p a new [] h = (new, tt)
All-upsert P p a new (x ∷ xs) (h, hs) = elim (Bool-cases (p x)) [
  | inl here ↦ rw here (new, hs)
  | inr later ↦ rw later (h, All-upsert P p a new xs hs)
]

abbrev AreUpper : List AdmittedMac → Type 0
AreUpper es = All (λ e. is_upper e ≡ true) es

module _ (networks : List RouterVlanConfig) (tc_fails : Command → Bool)
    (nft_fails : NftCommand → Bool) where
  revoke_mac-admitted :
      (mac : Text) (g : Gate)
      → (revoke_mac networks tc_fails nft_fails mac g).1.admitted ≡ g.admitted
  unfolding revoke_mac run_nft
  revoke_mac-admitted mac g = ground arith

  admit_mac-admitted :
      (mac : Text) (n : ℕ) (g : Gate)
      → (admit_mac networks tc_fails nft_fails mac n g).1.admitted ≡ g.admitted
  unfolding admit_mac run_nft
  admit_mac-admitted mac n g = ground (arith, revoke_mac-admitted (upper mac) g)

  drop_old-admitted :
      (r : RouterVlanConfig) (mac : Text) (o : Option AdmittedMac) (g : Gate)
      → (drop_old_shaping networks tc_fails nft_fails r mac o g).1.admitted ≡ g.admitted
  unfolding drop_old_shaping
  drop_old-admitted r mac none g = refl
  drop_old-admitted r mac (some e) g = ground arith

  drop_shaping-admitted :
      (mac : Text) (o : Option AdmittedMac) (g : Gate)
      → (drop_shaping networks tc_fails nft_fails mac o g).1.admitted ≡ g.admitted
  unfolding drop_shaping
  drop_shaping-admitted mac none g = refl
  drop_shaping-admitted mac (some e) g = refl

  drop_old_ok :
      (r : RouterVlanConfig) (mac : Text) (o : Option AdmittedMac) (g : Gate)
      → (drop_old_shaping networks tc_fails nft_fails r mac o g).0 ≡ ok tt
  unfolding drop_old_shaping
  drop_old_ok r mac none g = refl
  drop_old_ok r mac (some e) g = ground arith

  revoke_device-admitted :
      (mac : Text) (g : Gate)
      → (revoke_device networks tc_fails nft_fails mac g).admitted
        ≡ select (λ e. not (is_entry (upper mac) e)) g.admitted
  unfolding revoke_device
  revoke_device-admitted mac g =
      let entry = find (is_entry (upper mac)) g.admitted in
      ap (select (λ e. not (is_entry (upper mac) e))) (
        drop_shaping-admitted (upper mac) entry
          (revoke_mac networks tc_fails nft_fails (upper mac) g).1
        ∙ revoke_mac-admitted (upper mac) g)

  -- A registry with upper-case keys keeps them.
  put_upper :
      (now : ℕ) (r : RouterVlanConfig) (req : AdmitRequest) (o : Option AdmittedMac) (kept : Bool)
      (es : List AdmittedMac)
      → AreUpper es
      → AreUpper (
          upsert
            (is_entry (upper req.mac_address))
            (new_entry now r req o kept)
            (λ x. new_entry now r req o kept)
            es)
  put_upper now r req o kept es h =
      All-upsert (λ e. is_upper e ≡ true) (is_entry (upper req.mac_address))
        (new_entry now r req o kept) (upper-upper req.mac_address) es h

  admit_on-AreUpper :
      (now : ℕ) (r : RouterVlanConfig) (req : AdmitRequest) (o : Option AdmittedMac) (g : Gate)
      → AreUpper g.admitted
      → AreUpper (admit_on networks tc_fails nft_fails now r req o g).1.admitted
  unfolding admit_on
  admit_on-AreUpper now r req o g h =
      let mac = upper req.mac_address in
      let let_in =
        admit_mac networks tc_fails nft_fails mac (timeout_seconds now req.session_expires_at) g in
      let dropped = drop_old_shaping networks tc_fails nft_fails r mac o let_in.1 in
      let shaped =
        shaping (apply_shaping_for_mac tc_fails (link_of r) mac req.down_kbps req.up_kbps)
          dropped.1 in
      let same_entries : dropped.1.admitted ≡ g.admitted =
        drop_old-admitted r mac o let_in.1
        ∙ admit_mac-admitted mac (timeout_seconds now req.session_expires_at) g in
      elim (Result-cases let_in.0) [
        | inr (e, refused) ↦
            rw (admit_on, ◌>>◌, ◌>>=◌, refused)
              (rw (admit_mac-admitted mac (timeout_seconds now req.session_expires_at) g) h)
        | inl (u, fine) ↦ elim (Result-cases shaped.0) [
          | inr (e, failed) ↦
              rw (admit_on, ◌>>◌, ◌>>=◌, fine, drop_old_ok r mac o let_in.1, failed)
                (rw same_entries h)
          | inl (kept, done) ↦
              rw (admit_on, ◌>>◌, ◌>>=◌, fine, drop_old_ok r mac o let_in.1, done)
                (put_upper now r req o kept dropped.1.admitted (rw same_entries h))
        ]
      ]

  admit_device-AreUpper :
      (now : ℕ) (req : AdmitRequest) (force : Bool) (g : Gate)
      → AreUpper g.admitted
      → AreUpper (admit_device networks tc_fails nft_fails now req force g).1.admitted
  unfolding admit_device
  admit_device-AreUpper now req force g h =
      let existing = find (is_entry (upper req.mac_address)) g.admitted in
      elim (Option-cases (find_router networks req.router_id req.ip_address)) [
        | inl nowhere ↦ rw (admit_device, nowhere) h
        | inr (r, placed) ↦
            elim (Bool-cases (holds_for (is_unchanged r req) existing && not force)) [
              | inl settled ↦ rw (admit_device, placed, settled) h
              | inr new ↦ rw (admit_device, placed, new) (admit_on-AreUpper now r req existing g h)
            ]
      ]

  admit_sessions-AreUpper :
      (set : List Text) (sessions : List (ℕ × AdmitRequest)) (g : Gate)
      → AreUpper g.admitted
      → AreUpper (admit_sessions networks tc_fails nft_fails set sessions g).1.admitted
  unfolding admit_sessions
  admit_sessions-AreUpper set [] g h = h
  admit_sessions-AreUpper set ((now, req) ∷ sessions) g h =
      let missing = not (any (same (upper req.mac_address)) set) in
      admit_sessions-AreUpper set sessions
        (admit_device networks tc_fails nft_fails now req missing g).1
        (admit_device-AreUpper now req missing g h)

-- The stale entries whose device is not that of one of `es`.
module _ (started : ℕ) (sessions : List (ℕ × AdmitRequest)) where
  abbrev stale : AdmittedMac → Bool
  stale = is_stale started sessions

  abbrev missed : List AdmittedMac → AdmittedMac → Bool
  missed es e = stale e && not (any (λ x. stale x && same e.mac (upper x.mac)) es)

  missed-cons :
      (x : AdmittedMac) (es rows : List AdmittedMac)
      → stale x ≡ true
      → count_if (missed es) (select (λ e. not (is_entry (upper x.mac) e)) rows)
        ≤ count_if (missed (x ∷ es)) rows
  missed-cons x es [] s = omega arith
  missed-cons x es (a ∷ rows) s = ground (arith, s, missed-cons x es rows s)

  missed-fresh :
      (x : AdmittedMac) (es rows : List AdmittedMac)
      → stale x ≡ false
      → count_if (missed es) rows ≡ count_if (missed (x ∷ es)) rows
  missed-fresh x es [] s = refl
  missed-fresh x es (a ∷ rows) s = ground (arith, s, missed-fresh x es rows s)

  missed-none : (rows : List AdmittedMac) → count_if (missed []) rows ≡ count_if stale rows
  missed-none [] = refl
  missed-none (a ∷ rows) = ground (arith, missed-none rows)

  missed-weaken :
      (x : AdmittedMac) (es rows : List AdmittedMac)
      → count_if (missed (x ∷ es)) rows ≤ count_if (missed es) rows
  missed-weaken x es [] = omega arith
  missed-weaken x es (a ∷ rows) = ground (arith, missed-weaken x es rows)

  missed_self :
      (rows : List AdmittedMac)
      → All (λ e. is_upper e ≡ true) rows
      → count_if (missed rows) rows ≡ 0
  missed_self [] h = refl
  missed_self (a ∷ rows) (h, hs) = ground (arith, h, missed_self rows hs, missed-weaken a rows rows)

  revoke_stale_lem :
      (networks : List RouterVlanConfig) (tc_fails : Command → Bool) (nft_fails : NftCommand → Bool)
      (es : List AdmittedMac) (g : Gate)
      → count_if stale (revoke_stale networks tc_fails nft_fails started sessions es g).admitted
        ≤ count_if (missed es) g.admitted
  unfolding revoke_stale
  revoke_stale_lem networks tc_fails nft_fails [] g = omega (arith, missed-none g.admitted)
  revoke_stale_lem networks tc_fails nft_fails (e ∷ es) g =
      let cut = revoke_device networks tc_fails nft_fails e.mac g in
      elim (Bool-cases (stale e)) [
        | inl old ↦
            rw (revoke_stale, old)
              (omega (
                arith,
                revoke_stale_lem networks tc_fails nft_fails es cut,
                missed-cons e es g.admitted old,
                ap (count_if (missed es))
                    (revoke_device-admitted networks tc_fails nft_fails e.mac g),
              ))
        | inr new ↦
            rw (revoke_stale, new)
              (omega (
                arith,
                revoke_stale_lem networks tc_fails nft_fails es g,
                missed-fresh e es g.admitted new,
              ))
      ]

-- Where the registry's keys are in upper case, after a sync each device of the registry is one that
-- the API listed or that was let in since the sync began, whatever commands fail and whatever the
-- firewall's set held.
pub stale-sync_with_api :
    (networks : List RouterVlanConfig) (tc_fails : Command → Bool) (nft_fails : NftCommand → Bool)
    (started : ℕ) (sessions : List (ℕ × AdmitRequest)) (set : Option (List Text)) (g : Gate)
    → All (λ e. is_upper e ≡ true) g.admitted
    → let after = sync_with_api networks tc_fails nft_fails started sessions set g in
      count_if (is_stale started sessions) after.1.admitted ≡ 0
unfolding sync_with_api
stale-sync_with_api networks tc_fails nft_fails started sessions set g h =
    let in_firewall = map upper (or_default set []) in
    let mid = (admit_sessions networks tc_fails nft_fails in_firewall sessions g).1 in
    omega (
      arith,
      revoke_stale_lem started sessions networks tc_fails nft_fails mid.admitted mid,
      missed_self started sessions mid.admitted
          (admit_sessions-AreUpper networks tc_fails nft_fails in_firewall sessions g h),
    )
