-- ===== src/Prelude/Buckets.antt =====
-- A JavaScript `Map` as the list of its entries in the order of insertion, sorting, and the sums that
-- both keep.
use Prim.Native.Nat.{ℕ, ◌+◌}
use mathlib.Core.Path.{◌≡◌, refl}
use mathlib.Core.Bool.{Bool, true, false}
use mathlib.Core.List.{List, [], ◌∷◌}
use native.Mathlib.Omega.{arith}
use netcam.Prelude.Tests.{if◌then◌else◌, ◌==◌, ltb}
use netcam.Prelude.Lists.{sum_of}

module _ {ℓ} {A : Type ℓ} where
  -- `m.set(key, f(m.get(key) ?? fresh))`, where `p` finds the key.
  abbrev pub upsert : (A → Bool) → A → (A → A) → List A → List A
  upsert p fresh f [] = f fresh ∷ []
  upsert p fresh f (x ∷ xs) = let rest = upsert p fresh f xs in if p x then f x ∷ xs else x ∷ rest

  abbrev insert_by : (A → A → Bool) → A → List A → List A
  insert_by before x [] = x ∷ []
  insert_by before x (y ∷ ys) =
      let rest = insert_by before x ys in if before y x then y ∷ rest else x ∷ y ∷ ys

  -- `sort`, which is stable; `before` is strict.
  abbrev pub sort_by : (A → A → Bool) → List A → List A
  sort_by before [] = []
  sort_by before (x ∷ xs) = insert_by before x (sort_by before xs)

  pub sum_of-upsert :
      (g : A → ℕ) (p : A → Bool) (fresh : A) (f : A → A) (k : ℕ)
      → ((x : A) → g (f x) ≡ g x + k)
      → g fresh ≡ 0
      → (xs : List A) → sum_of g (upsert p fresh f xs) ≡ sum_of g xs + k
  sum_of-upsert g p fresh f k h e [] = omega (arith, h fresh, e)
  sum_of-upsert g p fresh f k h e (x ∷ xs) = ground (arith, h x, sum_of-upsert g p fresh f k h e xs)

  sum_of-insert_by :
      (g : A → ℕ) (before : A → A → Bool) (x : A) (xs : List A)
      → sum_of g (insert_by before x xs) ≡ g x + sum_of g xs
  sum_of-insert_by g before x [] = refl
  sum_of-insert_by g before x (y ∷ ys) = ground (arith, sum_of-insert_by g before x ys)

  pub sum_of-sort_by :
      (g : A → ℕ) (before : A → A → Bool) (xs : List A) → sum_of g (sort_by before xs) ≡ sum_of g xs
  sum_of-sort_by g before [] = refl
  sum_of-sort_by g before (x ∷ xs) =
      omega (arith, sum_of-insert_by g before x (sort_by before xs), sum_of-sort_by g before xs)

-- `a < b` on strings
abbrev pub text_ltb : List ℕ → List ℕ → Bool
text_ltb [] [] = false
text_ltb [] (_ ∷ _) = true
text_ltb (_ ∷ _) [] = false
text_ltb (x ∷ xs) (y ∷ ys) = let rest = text_ltb xs ys in if x == y then rest else ltb x y
