-- ===== src/Agent/UsageTests.antt =====
-- The split of a device's bytes across apps, and the counters, on concrete numbers.
use netcam.Agent.Usage.{
  AppBytes, attributed, Doubles, push, billed_since, split_across_apps, unattributed,
}
use netcam.Agent.Shares.{IsExact, in_doubles, split_across_apps-sum}
use netcam.Prelude.{
  arith, ℕ, ◌≡◌, ◌+◌, ◌-◌, ◌*◌, ◌/◌, min, refl, none, some, List, [], ◌∷◌, codes, ltb,
}

-- Whole numbers for the floating-point ones, which they are as long as nothing is scaled down.
abbrev naturals : Doubles ℕ
naturals = record {
  whole = λ n. n;
  plus = λ a b. a + b;
  minus = λ a b. a - b;
  times = λ a b. a * b;
  over = λ a b. a / b;
  least = λ a b. min a b;
  is_less = ltb;
}

abbrev seen : List (AppBytes ℕ)
seen =
    record { app = codes "YouTube"; bytes = 300 }
    ∷ record { app = codes "WhatsApp"; bytes = 0 }
    ∷ record { app = codes "TikTok"; bytes = 100 }
    ∷ []

some_is_other :
    split_across_apps naturals 1000 seen
    ≡ record { app = codes "YouTube"; bytes = 300 }
      ∷ record { app = codes "TikTok"; bytes = 100 }
      ∷ record { app = unattributed; bytes = 600 }
      ∷ []
unfolding split_across_apps
some_is_other = refl

-- Twice what was seen, by a scale of two in place of one half.
scaled :
    split_across_apps (record naturals { over = λ a b. b / a }) 200 seen
    ≡ record { app = codes "YouTube"; bytes = 600 }
      ∷ record { app = codes "TikTok"; bytes = 200 }
      ∷ []
unfolding split_across_apps
scaled = refl

a_new_baseline :
    billed_since (some (record { down = 500; up = 20 })) (record { down = 40; up = 25 })
    ≡ record { down = 0; up = 5 }
a_new_baseline = refl

the_first_tick : billed_since none (record { down = 40; up = 25 }) ≡ record { down = 0; up = 0 }
the_first_tick = refl

first_point : push [] (record { t = 1; down = 2; up = 3 }) ≡ record { t = 1; down = 2; up = 3 } ∷ []
unfolding push
first_point = refl

naturals-IsExact : IsExact naturals
naturals-IsExact = record {
  plus = λ a b h. refl;
  minus = λ a b h k. refl;
  times_one = λ a h. omega arith;
  least = λ a b h k. refl;
  is_less = λ a b h k. refl;
}

split_across_apps-sum_example :
    attributed naturals (split_across_apps naturals 1000 (in_doubles naturals seen)) ≡ 1000
split_across_apps-sum_example =
    split_across_apps-sum naturals naturals-IsExact 1000 seen (omega arith) (omega arith)
