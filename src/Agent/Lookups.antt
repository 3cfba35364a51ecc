-- ===== src/Agent/Lookups.antt =====
-- What the DNS log remembers: the maps stay bounded, and a lookup that was just answered is found.
use netcam.Prelude.{
  ℕ, suc, ◌≤◌, ◌≡◌, refl, inl, inr, Bool, true, not, some, List, [], ◌∷◌, ◌++◌, map, arith, Text,
  length, any, all, select, find, if◌then◌else◌, Bool-cases, ◌-◌, ◌<◌, false, codes, Option-cases,
}
use netcam.Prelude.Strings.{starts_with, same_refl}
use netcam.Agent.DnsLog.{
  Mapping, Query, DnsLog, max_mappings, has_key, bounded, remember, has_serial, set_query, LogLine,
  Catalog, pair_key, app_of, is_answer, parse_dns_log_line, app_for_destination,
}

abbrev lacks : Text → List Mapping → Bool
lacks key entries = all (λ e. not (has_key key e)) entries

lacks-select :
    (key : Text) (es : List Mapping) → lacks key (select (λ e. not (has_key key e)) es) ≡ true
lacks-select key [] = refl
lacks-select key (e ∷ es) = ground (arith, lacks-select key es)

find-last :
    (key : Text) (es : List Mapping) (e : Mapping)
    → lacks key es ≡ true
    → has_key key e ≡ true
    → find (has_key key) (es ++ e ∷ []) ≡ some e
find-last key [] e h k = ground arith
find-last key (x ∷ es) e h k = ground (arith, h, find-last key es e)

found_lem :
    (key : Text) (es : List Mapping) (e : Mapping)
    → lacks key es ≡ true
    → has_key key e ≡ true
    → find (has_key key) (bounded max_mappings (es ++ e ∷ [])) ≡ some e
found_lem key [] e h k = ground arith
found_lem key (x ∷ es) e h k = ground (arith, h, find-last key es e, find-last key (x ∷ es) e)

find-remember :
    (key app : Text) (now : ℕ) (es : List Mapping)
    → find (has_key key) (remember key app now es)
      ≡ some (record { key = key; app = app; at = now })
unfolding remember
find-remember key app now es =
    found_lem key (select (λ e. not (has_key key e)) es) (record { key = key; app = app; at = now })
      (lacks-select key es) (same_refl key)

length-snoc {ℓ} : {A : Type ℓ} (xs : List A) (x : A) → length (xs ++ x ∷ []) ≡ suc (length xs)
length-snoc [] x = refl
length-snoc (y ∷ xs) x = omega (arith, length-snoc xs x)

length-select-le {ℓ} : {A : Type ℓ} (p : A → Bool) (xs : List A) → length (select p xs) ≤ length xs
length-select-le p [] = omega arith
length-select-le p (x ∷ xs) = ground (arith, length-select-le p xs)

length-map {ℓ} : {A : Type ℓ} (f : A → A) (xs : List A) → length (map f xs) ≡ length xs
length-map f [] = refl
length-map f (x ∷ xs) = omega (arith, length-map f xs)

length-bounded {ℓ} :
    {A : Type ℓ} (n : ℕ) (xs : List A) → length xs ≤ suc n → length (bounded n xs) ≤ n
length-bounded n [] h = ground arith
length-bounded n (x ∷ xs) h = ground (arith, h)

pub record IsBounded (d : DnsLog) : Type 0 where
  pub queries : length d.query_name_by_serial ≤ 5000
  pub pairs : length d.by_client_and_ip ≤ max_mappings
  pub ips : length d.by_ip ≤ max_mappings

length-remember :
    (key app : Text) (now : ℕ) (es : List Mapping)
    → length es ≤ max_mappings
    → length (remember key app now es) ≤ max_mappings
unfolding remember
length-remember key app now es h =
    let kept = select (λ e. not (has_key key e)) es in
    let e : Mapping = record { key = key; app = app; at = now } in
    length-bounded max_mappings (kept ++ e ∷ [])
      (omega (arith, h, length-snoc kept e, length-select-le (λ e. not (has_key key e)) es))

length-set_query :
    (serial name : Text) (qs : List Query)
    → length qs ≤ 5000
    → length (set_query serial name qs) ≤ 5000
unfolding set_query
length-set_query serial name qs h =
    let q : Query = record { serial = serial; name = name } in
    let put = λ (x : Query). if has_serial serial x then q else x in
    elim (Bool-cases (any (has_serial serial) qs)) [
      | inl there ↦
          rw there (length-bounded 5000 (map put qs) (omega (arith, h, length-map put qs)))
      | inr new ↦ rw new (length-bounded 5000 (qs ++ q ∷ []) (omega (arith, h, length-snoc qs q)))
    ]

unfoldable pub feed : Catalog → List (ℕ × LogLine) → DnsLog → DnsLog
feed catalog [] d = d
feed catalog ((now, line) ∷ lines) d = feed catalog lines (parse_dns_log_line catalog now line d)

abbrev pub quiet : DnsLog
quiet = record { query_name_by_serial = []; by_client_and_ip = []; by_ip = [] }

parse_dns_log_line-IsBounded :
    (catalog : Catalog) (now : ℕ) (line : LogLine) (d : DnsLog)
    → IsBounded d
    → IsBounded (parse_dns_log_line catalog now line d)
unfolding parse_dns_log_line
parse_dns_log_line-IsBounded catalog now line d h = elim (Option-cases (app_of catalog line d)) [
  | inl unknown ↦ record {
    queries = ground (
      arith,
      unknown,
      h.queries,
      length-set_query line.serial line.name d.query_name_by_serial h.queries,
    );
    pairs = ground (arith, unknown, h.pairs);
    ips = ground (arith, unknown, h.ips);
  }
  | inr (app, known) ↦ record {
    queries = ground (
      arith,
      known,
      h.queries,
      length-set_query line.serial line.name d.query_name_by_serial h.queries,
    );
    pairs = ground (
      arith,
      known,
      h.pairs,
      length-remember (pair_key line.client line.value) app now d.by_client_and_ip h.pairs,
    );
    ips = ground (arith, known, h.ips, length-remember line.value app now d.by_ip h.ips);
  }
]

feed-IsBounded :
    (catalog : Catalog) (lines : List (ℕ × LogLine)) (d : DnsLog)
    → IsBounded d
    → IsBounded (feed catalog lines d)
unfolding feed
feed-IsBounded catalog [] d h = h
feed-IsBounded catalog ((now, line) ∷ lines) d h =
    feed-IsBounded catalog lines (parse_dns_log_line catalog now line d)
      (parse_dns_log_line-IsBounded catalog now line d h)

-- However many lines are read, at most 5,000 queries and 50,000 entries of each map are kept.
pub quiet_log_kept_small :
    (catalog : Catalog) (lines : List (ℕ × LogLine)) → IsBounded (feed catalog lines quiet)
quiet_log_kept_small catalog lines =
    feed-IsBounded catalog lines quiet
      (record { queries = omega arith; pairs = omega arith; ips = omega arith })

-- For two hours after an answer that names a known app, the client's connections to the address
-- that was answered count as that app's, as long as no other line is read.
pub app_for_destination-parse_dns_log_line :
    (catalog : Catalog) (now later : ℕ) (line : LogLine) (d : DnsLog) (app : Text)
    → starts_with (codes "query") line.action ≡ false
    → is_answer line ≡ true
    → app_of catalog line d ≡ some app
    → later - now < 7200000
    → app_for_destination later line.client line.value (parse_dns_log_line catalog now line d)
      ≡ some app
unfolding parse_dns_log_line app_for_destination
app_for_destination-parse_dns_log_line catalog now later line d app answer good known soon =
    ground (
      arith,
      answer,
      good,
      known,
      soon,
      find-remember (pair_key line.client line.value) app now d.by_client_and_ip,
    )
