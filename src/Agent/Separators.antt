-- ===== src/Agent/Separators.antt =====
-- Texts without separators: splitting and trimming them, for what config.ts reads.
use mathlib.Core.List.{reverse, reverse-cons, reverse-reverse}
use netcam.Agent.Networks.{split, ParseError, all_ok}
use netcam.Prelude.Strings.{trim, is_space, drop_spaces, is_digit}
use netcam.Prelude.{
  ℕ, ◌≡◌, refl, Bool, true, false, ◌&&◌, not, List, [], ◌∷◌, ◌++◌, arith, Text, is_empty, all,
  Result, ok, ◌==◌,
}

-- No separator and no space.
abbrev pub is_plain_code : ℕ → Bool
is_plain_code c = not (c == b',') && not (c == b':') && not (is_space c)

abbrev pub is_plain : Text → Bool
is_plain s = all is_plain_code s

pub all-append :
    (p : ℕ → Bool) (s t : Text) → all p s ≡ true → all p t ≡ true → all p (s ++ t) ≡ true
all-append p [] t h k = k
all-append p (c ∷ s) t h k = ground (arith, h, all-append p s t)

pub all-cons :
    (p : ℕ → Bool) (c : ℕ) (s : Text) → p c ≡ true → all p s ≡ true → all p (c ∷ s) ≡ true
all-cons p c s h k = ground (arith, h, k)

pub is_empty-append : (s t : Text) → is_empty s ≡ false → is_empty (s ++ t) ≡ false
is_empty-append [] t h = ground (arith, h)
is_empty-append (c ∷ s) t h = refl

pub all_ok-cons :
    {A : Type 0} (f : Text → Result ParseError A) (s : Text) (ss : List Text) (a : A)
    (rest : List A)
    → f s ≡ ok a
    → all_ok f ss ≡ ok rest
    → all_ok f (s ∷ ss) ≡ ok (a ∷ rest)
all_ok-cons f s ss a rest h k = ground (arith, h, k)

pub all-implies :
    (p q : ℕ → Bool)
    → ((c : ℕ) → p c ≡ true → q c ≡ true)
    → (s : Text) → all p s ≡ true
    → all q s ≡ true
all-implies p q i [] h = refl
all-implies p q i (c ∷ s) h = ground (arith, h, i c, all-implies p q i s)

pub split_whole : (c : ℕ) (s : Text) → all (λ d. not (d == c)) s ≡ true → split c s ≡ s ∷ []
split_whole c [] h = refl
split_whole c (d ∷ s) h = ground (arith, h, split_whole c s)

pub split_first :
    (c : ℕ) (s t : Text) → all (λ d. not (d == c)) s ≡ true → split c (s ++ c ∷ t) ≡ s ∷ split c t
split_first c [] t h = ground arith
split_first c (d ∷ s) t h = ground (arith, h, split_first c s t)

all-reverse : (p : ℕ → Bool) (s : Text) → all p s ≡ true → all p (reverse s) ≡ true
all-reverse p [] h = refl
all-reverse p (c ∷ s) h =
    rw (reverse-cons c s)
      (all-append p (reverse s) (c ∷ []) (all-reverse p s (ground (arith, h))) (ground (arith, h)))

drop_spaces_lem : (s : Text) → all (λ c. not (is_space c)) s ≡ true → drop_spaces s ≡ s
drop_spaces_lem [] h = refl
drop_spaces_lem (c ∷ s) h = ground (arith, h)

pub trim_lem : (s : Text) → all (λ c. not (is_space c)) s ≡ true → trim s ≡ s
unfolding trim
trim_lem s h =
    rw (drop_spaces_lem s h, drop_spaces_lem (reverse s) (all-reverse (λ c. not (is_space c)) s h))
      (reverse-reverse s)

abbrev pub not_space : ℕ → Bool
not_space c = not (is_space c)

plain-lacks :
    (c : ℕ)
    → ((d : ℕ) → is_plain_code d ≡ true → not (d == c) ≡ true)
    → (s : Text) → is_plain s ≡ true
    → all (λ d. not (d == c)) s ≡ true
plain-lacks c i s h = all-implies is_plain_code (λ d. not (d == c)) i s h

pub no_colon : (s : Text) → is_plain s ≡ true → all (λ d. not (d == b':')) s ≡ true
no_colon s h = plain-lacks b':' (λ d k. ground (arith, k)) s h

pub digits_plain : (s : Text) → all is_digit s ≡ true → is_plain s ≡ true
digits_plain s h = all-implies is_digit is_plain_code (λ c k. ground (arith, k)) s h
