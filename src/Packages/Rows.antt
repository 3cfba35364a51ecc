-- ===== src/Packages/Rows.antt =====
-- The rows of packages: which limits are consistent, and what rewriting and deleting rows keeps.
use netcam.Prelude.{
  ℕ, ◌+◌, ◌≤◌, ◌≡◌, refl, ◌∙◌, inl, inr, Bool, true, false, ◌&&◌, not, Option, some, List, [], ◌∷◌,
  ◌++◌, arith, any, select, count_if, find, patch, All, ◌==◌, if◌then◌else◌, Bool-cases, is_some,
}
use netcam.Packages.{Package, uses_duration, uses_data, is_missing, has_id}

abbrev pub fits : Bool → Option ℕ → Bool
fits true o = not (is_missing o)
fits false o = not (is_some o)

-- A limit that the type uses is set and not 0; one that it does not use is not set.
abbrev pub is_consistent : Package → Bool
is_consistent p =
    fits (uses_duration p.limit_type) p.duration_minutes
    && fits (uses_data p.limit_type) p.data_cap_mb

-- The package that a voucher or a payment names is there.
abbrev pub is_sold : List Package → ℕ → Bool
is_sold ps id = any (has_id id) ps

-- Rows that are rewritten with their ids kept.
module _ (f : Package → Package) (id : ℕ) (keeps : (p : Package) → (f p).id ≡ p.id) where
  pub count-patch :
      (k : ℕ) (ps : List Package)
      → count_if (has_id k) (patch (has_id id) f ps) ≡ count_if (has_id k) ps
  count-patch k [] = refl
  count-patch k (p ∷ ps) = ground (arith, keeps p, count-patch k ps)

  is_sold-patch : (k : ℕ) (ps : List Package) → is_sold (patch (has_id id) f ps) k ≡ is_sold ps k
  is_sold-patch k [] = refl
  is_sold-patch k (p ∷ ps) = ground (arith, keeps p, is_sold-patch k ps)

  pub still_sold :
      (ps : List Package) (ids : List ℕ)
      → All (λ k. is_sold ps k ≡ true) ids
      → All (λ k. is_sold (patch (has_id id) f ps) k ≡ true) ids
  still_sold ps [] h = tt
  still_sold ps (k ∷ ids) (h, hs) = (is_sold-patch k ps ∙ h, still_sold ps ids hs)

  untouched : (ps : List Package) → count_if (has_id id) ps ≡ 0 → patch (has_id id) f ps ≡ ps
  untouched [] h = refl
  untouched (p ∷ ps) h = ground (arith, h, untouched ps)

  -- Only the row that was found is rewritten.
  pub consistent-patch :
      (ps : List Package) (e : Package)
      → All (λ p. is_consistent p ≡ true) ps
      → count_if (has_id id) ps ≤ 1
      → find (has_id id) ps ≡ some e
      → is_consistent (f e) ≡ true
      → All (λ p. is_consistent p ≡ true) (patch (has_id id) f ps)
  consistent-patch [] e h one found new = tt
  consistent-patch (p ∷ ps) e (h, hs) one found new = elim (Bool-cases (has_id id p)) [
    | inl here ↦
        let is_e : p ≡ e = ground (arith, found, here) in
        let rest : patch (has_id id) f ps ≡ ps = untouched ps (ground (arith, one, here)) in
        rw (here, rest) (rw is_e new, hs)
    | inr later ↦ rw later (
      h,
      consistent-patch ps e hs (ground (arith, one, later)) (ground (arith, found, later)) new,
    )
  ]

any-snoc :
    (ps : List Package) (p : Package) (k : ℕ)
    → is_sold ps k ≡ true
    → is_sold (ps ++ p ∷ []) k ≡ true
any-snoc [] p k h = ground (arith, h)
any-snoc (q ∷ ps) p k h = ground (arith, h, any-snoc ps p k)

pub sold-snoc :
    (ps : List Package) (p : Package) (ids : List ℕ)
    → All (λ k. is_sold ps k ≡ true) ids
    → All (λ k. is_sold (ps ++ p ∷ []) k ≡ true) ids
sold-snoc ps p [] h = tt
sold-snoc ps p (k ∷ ids) (h, hs) = (any-snoc ps p k h, sold-snoc ps p ids hs)

pub count-snoc :
    (ps : List Package) (p : Package) (k : ℕ)
    → count_if (has_id k) (ps ++ p ∷ []) ≡ count_if (has_id k) ps + (if has_id k p then 1 else 0)
count-snoc [] p k = ground arith
count-snoc (q ∷ ps) p k = ground (arith, count-snoc ps p k)

pub same_count :
    (ps : List Package) (p : Package) (k : ℕ)
    → has_id k p ≡ true
    → count_if (has_id k) ps ≡ count_if (has_id p.id) ps
same_count ps p k h = let e : k ≡ p.id = ground (arith, h) in rw e refl

-- Deleting a package that nothing names.
pub deleted_limits :
    (id : ℕ) (ps : List Package)
    → All (λ p. is_consistent p ≡ true) ps
    → All (λ p. is_consistent p ≡ true) (select (λ p. not (has_id id p)) ps)
deleted_limits id [] h = tt
deleted_limits id (p ∷ ps) (h, hs) = elim (Bool-cases (has_id id p)) [
  | inl here ↦ rw here (deleted_limits id ps hs)
  | inr other ↦ rw other (h, deleted_limits id ps hs)
]

pub deleted_ids :
    (id k : ℕ) (ps : List Package)
    → count_if (has_id k) (select (λ p. not (has_id id p)) ps) ≤ count_if (has_id k) ps
deleted_ids id k [] = omega arith
deleted_ids id k (p ∷ ps) = ground (arith, deleted_ids id k ps)

other_sold :
    (id k : ℕ) (ps : List Package)
    → (k == id) ≡ false
    → is_sold ps k ≡ true
    → is_sold (select (λ p. not (has_id id p)) ps) k ≡ true
other_sold id k [] other h = h
other_sold id k (p ∷ ps) other h = ground (arith, other, h, other_sold id k ps other)

pub others_sold :
    (id : ℕ) (ps : List Package) (ids : List ℕ)
    → count_if (λ k. k == id) ids ≡ 0
    → All (λ k. is_sold ps k ≡ true) ids
    → All (λ k. is_sold (select (λ p. not (has_id id p)) ps) k ≡ true) ids
others_sold id ps [] c h = tt
others_sold id ps (k ∷ ids) c (h, hs) =
    (other_sold id k ps (ground (arith, c)) h, others_sold id ps ids (ground (arith, c)) hs)

pub inactive_limits :
    (t : Package → Bool) (ps : List Package)
    → All (λ p. is_consistent p ≡ true) ps
    → All (λ p. is_consistent p ≡ true) (patch t (λ p. record p { is_active = false }) ps)
inactive_limits t [] h = tt
inactive_limits t (p ∷ ps) (h, hs) =
    (elim (Bool-cases (t p)) [ inl e ↦ rw e h | inr e ↦ rw e h ], inactive_limits t ps hs)
