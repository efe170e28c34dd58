-- ===== src/Cache/Sample.antt =====
-- A small browser for the tests: numbers are written in unary, so that texts can be read back.
use Prim.Native.Char.{Char, code}
use mathlib.Core.Option
use net_test_toy.Cache.{CacheStatus, Entry, Host, Manager, Parsed, initial_status}
use net_test_toy.Cache.Json.{IsJson, written}
use net_test_toy.Cache.Status.{IsStatusJson}
use net_test_toy.Base.{
  Bool, Option, String, [], arith, false, if◌then◌else◌, leb, none, refl, some, suc, true, zero, ℕ,
  ◌∷◌, ◌≡◌, ◌≢◌,
}

abbrev zero_char : Char
zero_char = "0"

abbrev one_char : Char
one_char = "1"

unfoldable pub put_nat : ℕ → String → String
put_nat zero s = String.◌∷◌ zero_char s
put_nat (suc n) s = String.◌∷◌ one_char (put_nat n s)

unfoldable pub read_nat : String → Option (ℕ × String)
read_nat String.[] = none
read_nat (String.◌∷◌ c s) =
    let rest = read_nat s in
    if leb (code c) b'0' then some (0, s) else Option.map (λ (n, t). (suc n, t)) rest

read_nat-put_nat : (n : ℕ) (s : String) → read_nat (put_nat n s) ≡ some (n, s)
unfolding read_nat put_nat
read_nat-put_nat zero s = refl
read_nat-put_nat (suc n) s = rw (read_nat-put_nat n s)

put_nat-ne-empty : (n : ℕ) (s : String) → put_nat n s ≢ ""
unfolding put_nat
put_nat-ne-empty zero s = λ e. cc
put_nat-ne-empty (suc n) s = λ e. cc

unfoldable pub put_option : Option ℕ → String → String
put_option none s = put_nat 0 s
put_option (some n) s = put_nat (suc n) s

unfoldable pub read_option : String → Option (Option ℕ × String)
read_option s = elim (read_nat s) [
  | none ↦ none
  | some (n, t) ↦ some (elim n [ zero ↦ none | suc k ↦ some k ], t)
]

read_option-put_option : (o : Option ℕ) (s : String) → read_option (put_option o s) ≡ some (o, s)
unfolding read_option put_option
read_option-put_option none s = ground (arith, read_nat-put_nat 0 s)
read_option-put_option (some n) s = ground (arith, read_nat-put_nat (suc n) s)

unfoldable pub stringify : Entry ℕ → String
stringify e = put_option e.payload (put_nat e.timestamp e.version)

unfoldable pub parse : String → Option (Parsed ℕ)
parse s = elim (read_option s) [
  | none ↦ none
  | some (p, t) ↦ elim (read_nat t) [
    | none ↦ none
    | some (n, v) ↦ some (record { payload = p; timestamp = some n; version = some v })
  ]
]

parse-stringify_lem : (e : Entry ℕ) → parse (stringify e) ≡ some (written e)
unfolding parse stringify
parse-stringify_lem e = ground (
  arith,
  read_option-put_option e.payload (put_nat e.timestamp e.version),
  read_nat-put_nat e.timestamp e.version,
)

stringify-ne-empty_lem : (e : Entry ℕ) → stringify e ≢ ""
unfolding stringify put_option
stringify-ne-empty_lem e =
    elim e.payload as (λ p. put_option p (put_nat e.timestamp e.version) ≢ "") [
      | none ↦ put_nat-ne-empty 0 _
      | some n ↦ put_nat-ne-empty (suc n) _
    ]

abbrev nat_of_bool : Bool → ℕ
nat_of_bool true = 1
nat_of_bool false = 0

abbrev bool_of_nat : ℕ → Bool
bool_of_nat zero = false
bool_of_nat (suc n) = true

unfoldable pub stringify_status : CacheStatus → String
stringify_status st =
    put_option st.last_api_success
      (put_nat st.failed_requests (put_nat (nat_of_bool st.is_cached_mode) ""))

unfoldable pub parse_status : String → Option CacheStatus
parse_status s = elim (read_option s) [
  | none ↦ none
  | some (last, t) ↦ elim (read_nat t) [
    | none ↦ none
    | some (failed, u) ↦ elim (read_nat u) [
      | none ↦ none
      | some (b, v) ↦ some (record {
        is_cached_mode = bool_of_nat b;
        last_api_success = last;
        failed_requests = failed;
      })
    ]
  ]
]

bool_of_nat-nat_of_bool : (b : Bool) → bool_of_nat (nat_of_bool b) ≡ b
bool_of_nat-nat_of_bool true = refl
bool_of_nat-nat_of_bool false = refl

parse_status-stringify_status : (st : CacheStatus) → parse_status (stringify_status st) ≡ some st
unfolding parse_status stringify_status
parse_status-stringify_status st = ground (
  arith,
  read_option-put_option st.last_api_success
      (put_nat st.failed_requests (put_nat (nat_of_bool st.is_cached_mode) "")),
  read_nat-put_nat st.failed_requests (put_nat (nat_of_bool st.is_cached_mode) ""),
  read_nat-put_nat (nat_of_bool st.is_cached_mode) "",
  bool_of_nat-nat_of_bool st.is_cached_mode,
)

stringify_status-ne-empty : (st : CacheStatus) → stringify_status st ≢ ""
unfolding stringify_status put_option
stringify_status-ne-empty st =
    elim st.last_api_success
      as (λ p.
        put_option p (put_nat st.failed_requests (put_nat (nat_of_bool st.is_cached_mode) ""))
        ≢ "") [ none ↦ put_nat-ne-empty 0 _ | some n ↦ put_nat-ne-empty (suc n) _ ]

-- `setItem` finds room for everything.
abbrev pub sample_host : Host ℕ
sample_host = record {
  stringify = stringify;
  parse = parse;
  stringify_status = stringify_status;
  parse_status = parse_status;
  room = λ s k v. true;
}

pub sample_host-IsJson : IsJson sample_host
sample_host-IsJson = record {
  parse-stringify = parse-stringify_lem;
  stringify-ne-empty = stringify-ne-empty_lem;
}

pub sample_host-IsStatusJson : IsStatusJson sample_host
sample_host-IsStatusJson = record {
  parse-stringify = parse_status-stringify_status;
  stringify-ne-empty = stringify_status-ne-empty;
}

abbrev pub new_manager : Manager
new_manager = record {
  storage = ("other", "x") ∷ [];
  status = initial_status;
  listeners = 1 ∷ [];
  delivered = [];
}
