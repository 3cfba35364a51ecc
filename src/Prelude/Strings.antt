-- ===== src/Prelude/Strings.antt =====
-- Text as its list of code points, and the string methods that the program calls.
use Prim.Native.Nat.{ℕ, ◌+◌, ◌-◌}
use Prim.Native.Char.{code}
use Prim.Native.String.{String}
use mathlib.Core.Path.{◌≡◌, refl}
use native.Mathlib.Omega.{arith}
use mathlib.Core.Bool.{Bool, true, false, ◌&&◌, ◌||◌}
use mathlib.Core.Option.{Option, none, some}
use mathlib.Core.List.{List, [], ◌∷◌, map, reverse}
use netcam.Prelude.Tests.{if◌then◌else◌, ◌==◌, leb}

abbrev pub Text : Type 0
Text = List ℕ

abbrev pub codes : String → Text
codes String.[] = []
codes (String.◌∷◌ c s) = code c ∷ codes s

abbrev pub same : Text → Text → Bool
same [] [] = true
same (x ∷ xs) (y ∷ ys) = x == y && same xs ys
same _ _ = false

abbrev pub is_empty : Text → Bool
is_empty [] = true
is_empty (_ ∷ _) = false

-- `startsWith`
abbrev pub starts_with : Text → Text → Bool
starts_with [] s = true
starts_with (c ∷ p) [] = false
starts_with (c ∷ p) (d ∷ s) = c == d && starts_with p s

abbrev pub is_digit : ℕ → Bool
is_digit c = leb b'0' c && leb c b'9'

-- `\s`, on ASCII
abbrev pub is_space : ℕ → Bool
is_space c = c == b' ' || leb 9 c && leb c 13

abbrev pub drop_spaces : Text → Text
drop_spaces [] = []
drop_spaces (c ∷ s) = let rest = drop_spaces s in if is_space c then rest else c ∷ s

-- `trim`
unfoldable pub trim : Text → Text
trim s = reverse (drop_spaces (reverse (drop_spaces s)))

abbrev pub lower_code : ℕ → ℕ
lower_code c = if leb b'A' c && leb c b'Z' then c + 32 else c

abbrev pub upper_code : ℕ → ℕ
upper_code c = if leb b'a' c && leb c b'z' then c - 32 else c

-- `toLowerCase` and `toUpperCase`, on ASCII
abbrev pub lower : Text → Text
lower = map lower_code

abbrev pub upper : Text → Text
upper = map upper_code

-- `s.replace(c, "")`: the first occurrence goes.
abbrev pub remove_first : ℕ → Text → Text
remove_first c [] = []
remove_first c (d ∷ s) = if c == d then s else d ∷ remove_first c s

-- `includes`
abbrev pub has_part : Text → Text → Bool
has_part p [] = is_empty p
has_part p (c ∷ s) = starts_with p (c ∷ s) || has_part p s

-- `text?.trim() || null`
abbrev pub trimmed : Option Text → Option Text
trimmed none = none
trimmed (some s) = let t = trim s in if is_empty t then none else some t

pub same_eq : (s t : Text) → same s t ≡ true → s ≡ t
same_eq [] [] h = refl
same_eq [] (y ∷ t) h = ground (arith, h)
same_eq (x ∷ s) [] h = ground (arith, h)
same_eq (x ∷ s) (y ∷ t) h = ground (arith, h, same_eq s t)

pub same_refl : (s : Text) → same s s ≡ true
same_refl [] = refl
same_refl (x ∷ s) = ground (arith, same_refl s)

pub upper-upper : (s : Text) → same (upper s) (upper (upper s)) ≡ true
upper-upper [] = refl
upper-upper (c ∷ s) = ground (arith, upper-upper s)
