-- ===== src/Agent/DnsLog.antt =====
-- apps/network-agent/src/dns-log.ts and app-catalog.ts: which app is behind a destination. A log line
-- comes here as the fields that the expression `LINE` finds; the catalog is an argument. A map is
-- the list of its entries in the order of insertion.
use netcam.Prelude.Strings.{starts_with, lower}
use mathlib.Core.List.{reverse, tail}
use netcam.Prelude.{
  ℕ, ◌-◌, ◌*◌, Bool, ◌&&◌, ◌||◌, not, Option, none, some, List, [], ◌∷◌, ◌++◌, map, Text, codes,
  same, length, any, select, find, ltb, if◌then◌else◌,
}

pub record LogLine : Type 0 where
  pub serial : Text
  pub client : Text
  pub action : Text
  pub name : Text
  pub value : Text
  -- `IPV4.test(value)`
  pub is_ipv4 : Bool

pub record Mapping : Type 0 where
  pub key : Text
  pub app : Text
  pub at : ℕ

pub record Query : Type 0 where
  pub serial : Text
  pub name : Text

pub record DnsLog : Type 0 where
  pub query_name_by_serial : List Query
  pub by_client_and_ip : List Mapping
  pub by_ip : List Mapping

-- Domain suffixes with their apps, the specific ones first.
abbrev pub Catalog : Type 0
Catalog = List (Text × Text)

abbrev pub mapping_ttl_ms : ℕ
mapping_ttl_ms = 2 * 60 * 60000

abbrev pub max_mappings : ℕ
max_mappings = 50000

abbrev ends_with : Text → Text → Bool
ends_with suffix s = starts_with (reverse suffix) (reverse s)

-- `replace(/\.$/, "")`
abbrev without_dot : Text → Text
without_dot s = if ends_with (codes ".") s then reverse (tail (reverse s)) else s

abbrev pub belongs : Text → Text × Text → Bool
belongs host (suffix, app) = same host suffix || ends_with (b'.' ∷ suffix) host

unfoldable pub classify_domain : Catalog → Text → Option Text
classify_domain catalog hostname = elim (find (belongs (without_dot (lower hostname))) catalog) [
  | none ↦ none
  | some entry ↦ some entry.1
]

abbrev pub has_key : Text → Mapping → Bool
has_key key e = same e.key key

-- `if (map.size > max) map.delete(oldest)`
abbrev pub bounded {ℓ} : {A : Type ℓ} → ℕ → List A → List A
bounded limit xs = if ltb limit (length xs) then tail xs else xs

unfoldable pub remember : Text → Text → ℕ → List Mapping → List Mapping
remember key app now entries =
    bounded max_mappings (
      select (λ e. not (has_key key e)) entries ++ (record { key = key; app = app; at = now }) ∷ [])

abbrev pub has_serial : Text → Query → Bool
has_serial serial q = same q.serial serial

-- `queryNameBySerial.set`, which keeps the place of a key that is there.
unfoldable pub set_query : Text → Text → List Query → List Query
set_query serial name queries =
    let query : Query = record { serial = serial; name = name } in
    bounded 5000 (
      if any (has_serial serial) queries
      then map (λ q. if has_serial serial q then query else q) queries
      else queries ++ query ∷ [])

abbrev pub pair_key : Text → Text → Text
pair_key client ip = client ++ b'|' ∷ ip

-- The name that the device asked for tells more than the one that was answered.
unfoldable pub app_of : Catalog → LogLine → DnsLog → Option Text
app_of catalog line d =
    let answered = classify_domain catalog line.name in
    elim (find (has_serial line.serial) d.query_name_by_serial) [
      | none ↦ answered
      | some q ↦ elim (classify_domain catalog q.name) [ none ↦ answered | some app ↦ some app ]
    ]

abbrev pub is_answer : LogLine → Bool
is_answer line =
    (same line.action (codes "reply") || same line.action (codes "cached")) && line.is_ipv4

unfoldable pub parse_dns_log_line : Catalog → ℕ → LogLine → DnsLog → DnsLog
parse_dns_log_line catalog now line d =
    if starts_with (codes "query") line.action
    then record d { query_name_by_serial = set_query line.serial line.name d.query_name_by_serial }
    else if not (is_answer line)
    then d
    else elim (app_of catalog line d) [
      | none ↦ d
      | some app ↦ record d {
        by_client_and_ip = remember (pair_key line.client line.value) app now d.by_client_and_ip;
        by_ip = remember line.value app now d.by_ip;
      }
    ]

-- An entry that is not out of date.
abbrev pub fresh_app : ℕ → Option Mapping → Option Text
fresh_app now none = none
fresh_app now (some e) = if ltb (now - e.at) mapping_ttl_ms then some e.app else none

unfoldable pub app_for_destination : ℕ → Text → Text → DnsLog → Option Text
app_for_destination now client ip d =
    elim (fresh_app now (find (has_key (pair_key client ip)) d.by_client_and_ip)) [
      | some app ↦ some app
      | none ↦ fresh_app now (find (has_key ip) d.by_ip)
    ]
