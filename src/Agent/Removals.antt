-- ===== src/Agent/Removals.antt =====
-- Removals that have begun: their MACs are not alike, and each has the number that was read.
use netcam.Agent.Events.{take_out}
use netcam.Prelude.{
  ◌≡◌, refl, ap, ◌∙◌, inl, inr, Bool, false, not, Option, none, some, List, [], ◌∷◌, ◌++◌, arith,
  Text, same, find, select, any, Option-cases, Bool-cases, All, if◌then◌else◌,
}
use netcam.Prelude.Strings.{same_eq}
use netcam.Agent.Shaping.{Entry, Shaper, has_mac, allocate_minor, next_free, end_removal}
use netcam.Agent.Minors.{SameTables}

pub same_sym : (s t : Text) → same s t ≡ same t s
same_sym [] [] = refl
same_sym [] (y ∷ t) = refl
same_sym (x ∷ s) [] = refl
same_sym (x ∷ s) (y ∷ t) = ground (arith, same_sym s t)

-- The MAC has the number that its removal read.
abbrev pub Holds : Entry → Shaper → Type 0
Holds e b = (x : Entry) × (find (has_mac e.mac) b.minor_by_mac ≡ some x) × (x.minor ≡ e.minor)

abbrev pub Distinct : List Entry → Type 0
Distinct [] = Unit
Distinct (e ∷ es) = All (λ f. same e.mac f.mac ≡ false) es × Distinct es

find-append :
    (p : Entry → Bool) (es fs : List Entry) (x : Entry)
    → find p es ≡ some x
    → find p (es ++ fs) ≡ some x
find-append p [] fs x h = ground (arith, h)
find-append p (e ∷ es) fs x h = ground (arith, h, find-append p es fs x)

pub allocate_minor-Holds :
    (e : Entry) (mac : Text) (b : Shaper) → Holds e b → Holds e (allocate_minor mac b).1
unfolding allocate_minor
allocate_minor-Holds e mac b (x, found, read) =
    elim (Option-cases (find (has_mac mac) b.minor_by_mac)) [
      | inr (y, there) ↦ rw (allocate_minor, there) (x, found, read)
      | inl missing ↦
          let new : Entry = record { mac = mac; minor = (next_free b).0 } in
          let still = find-append (has_mac e.mac) b.minor_by_mac (new ∷ []) x found in
          (x, ground (arith, missing, found, still), read)
    ]

pub SameTables-Holds : (e : Entry) (b c : Shaper) → SameTables b c → Holds e b → Holds e c
SameTables-Holds e b c (es, fs, n) h = rw es h

pub All-map :
    {P Q : Entry → Type 0} → ((e : Entry) → P e → Q e) → (es : List Entry) → All P es → All Q es
All-map f [] h = tt
All-map f (e ∷ es) (h, hs) = (f e h, All-map f es hs)

find-select :
    (mac other : Text) (es : List Entry)
    → same mac other ≡ false
    → find (has_mac other) (select (λ x. not (has_mac mac x)) es) ≡ find (has_mac other) es
find-select mac other [] h = refl
find-select mac other (e ∷ es) h = elim (Bool-cases (has_mac mac e)) [
  | inl gone ↦
      let other_mac : has_mac other e ≡ false =
        ap (λ m. same m other) (same_eq e.mac mac gone) ∙ h in
      rw (gone, other_mac) (find-select mac other es h)
  | inr left ↦
      rw left (ap (λ rest. if has_mac other e then some e else rest) (find-select mac other es h))
]

end_removal-Holds :
    (e f : Entry) (b : Shaper) → same e.mac f.mac ≡ false → Holds f b → Holds f (end_removal e b)
unfolding end_removal
end_removal-Holds e f b apart (x, found, read) =
    (x, find-select e.mac f.mac b.minor_by_mac apart ∙ found, read)

-- What holds of all removals holds of the one that is taken out and of the others.
abbrev pub AllTaken : (Entry → Type 0) → Option (Entry × List Entry) → Type 0
AllTaken P none = Unit
AllTaken P (some (e, es)) = P e × All P es

abbrev pub DistinctTaken : Option (Entry × List Entry) → Type 0
DistinctTaken none = Unit
DistinctTaken (some (e, es)) = Distinct (e ∷ es)

abbrev put_back : Entry → Option (Entry × List Entry) → Option (Entry × List Entry)
put_back x o = elim o [ none ↦ none | some (f, fs) ↦ some (f, x ∷ fs) ]

put_back-AllTaken :
    (P : Entry → Type 0) (x : Entry) (o : Option (Entry × List Entry))
    → P x
    → AllTaken P o
    → AllTaken P (put_back x o)
put_back-AllTaken P x none h k = tt
put_back-AllTaken P x (some (e, es)) h (k, ks) = (k, (h, ks))

pub take_out-AllTaken :
    (P : Entry → Type 0) (mac : Text) (es : List Entry) → All P es → AllTaken P (take_out mac es)
unfolding take_out
take_out-AllTaken P mac [] h = tt
take_out-AllTaken P mac (x ∷ es) (h, hs) = elim (Bool-cases (has_mac mac x)) [
  | inl here ↦ rw here (h, hs)
  | inr past ↦ rw past (put_back-AllTaken P x (take_out mac es) h (take_out-AllTaken P mac es hs))
]

put_back-DistinctTaken :
    (x : Entry) (o : Option (Entry × List Entry))
    → AllTaken (λ f. same x.mac f.mac ≡ false) o
    → DistinctTaken o
    → DistinctTaken (put_back x o)
put_back-DistinctTaken x none h k = tt
put_back-DistinctTaken x (some (e, es)) (h, hs) (k, ks) = ((same_sym e.mac x.mac ∙ h, k), (hs, ks))

pub take_out-DistinctTaken :
    (mac : Text) (es : List Entry) → Distinct es → DistinctTaken (take_out mac es)
unfolding take_out
take_out-DistinctTaken mac [] h = tt
take_out-DistinctTaken mac (x ∷ es) (h, hs) = elim (Bool-cases (has_mac mac x)) [
  | inl here ↦ rw here (h, hs)
  | inr past ↦ rw past (
      put_back-DistinctTaken x (take_out mac es)
        (take_out-AllTaken (λ f. same x.mac f.mac ≡ false) mac es h)
        (take_out-DistinctTaken mac es hs))
]

pub others_hold :
    (e : Entry) (b : Shaper) (es : List Entry)
    → All (λ f. same e.mac f.mac ≡ false) es
    → All (λ f. Holds f b) es
    → All (λ f. Holds f (end_removal e b)) es
others_hold e b [] a h = tt
others_hold e b (f ∷ es) (a, others) (h, hs) =
    (end_removal-Holds e f b a h, others_hold e b es others hs)

pub apart_from :
    (mac : Text) (es : List Entry)
    → any (has_mac mac) es ≡ false
    → All (λ f. same mac f.mac ≡ false) es
apart_from mac [] h = tt
apart_from mac (f ∷ es) h =
    (same_sym mac f.mac ∙ ground (arith, h), apart_from mac es (ground (arith, h)))
