-- ===== src/Http/History/Stats.antt =====
-- The length of the history of apiLogger.ts and the counts of its statistics.
use net_test_toy.Http.History.{
  ApiCallEntry, ApiCallStats, CallData, first_timestamp, get_api_call_stats, is_success,
  log_api_call, new_entry, number_or, sum, tally, tally_all,
}
use net_test_toy.Base.{
  Bool, List, String, [], ap, arith, false, filter, if◌then◌else◌, leb, length, length-take, map,
  none, not, refl, some, suc, take, true, ℕ, ◌&&◌, ◌+◌, ◌<◌, ◌==◌, ◌∷◌, ◌≡◌, ◌≤◌,
}
use net_test_toy.Base.Dict.{Dict, lookup, lookup-insert}
use net_test_toy.Storage.{or_else}
use net_test_toy.Base.Buffer.{take-all}

abbrev pub total : Dict ℕ → ℕ
total m = sum (map (λ e. e.1) m)

total-tally : (k : String) (m : Dict ℕ) → total (tally k m) ≡ suc (total m)
total-tally k [] = ground arith
total-tally k ((j, n) ∷ m) = ground (arith, total-tally k m)

total-tally_all : (ks : List String) (m : Dict ℕ) → total (tally_all ks m) ≡ length ks + total m
total-tally_all [] m = omega arith
total-tally_all (k ∷ ks) m = omega (arith, total-tally_all ks (tally k m), total-tally k m)

length-map : (f : ApiCallEntry → String) (es : List ApiCallEntry) → length (map f es) ≡ length es
length-map f [] = refl
length-map f (e ∷ es) = ap suc (length-map f es)

filter-split :
    (p : ApiCallEntry → Bool) (es : List ApiCallEntry)
    → length (filter p es) + length (filter (λ e. not (p e)) es) ≡ length es
filter-split p [] = refl
filter-split p (e ∷ es) = ground (arith, filter-split p es)

abbrev pub count_of : String → Dict ℕ → ℕ
count_of k m = elim (lookup k m) [ none ↦ 0 | some n ↦ n ]

-- One more, where the test holds
abbrev pub plus_if : Bool → ℕ → ℕ
plus_if true n = suc n
plus_if false n = n

count_of-tally :
    (k j : String) (m : Dict ℕ) → count_of j (tally k m) ≡ plus_if (k == j) (count_of j m)
count_of-tally k j m = ground (arith, lookup-insert k j (suc (count_of k m)) m)

occurrences : String → List String → ℕ
occurrences j [] = 0
occurrences j (k ∷ ks) = plus_if (k == j) (occurrences j ks)

count_of-tally_all :
    (j : String) (ks : List String) (m : Dict ℕ)
    → count_of j (tally_all ks m) ≡ occurrences j ks + count_of j m
unfolding occurrences
count_of-tally_all j [] m = omega arith
count_of-tally_all j (k ∷ ks) m =
    ground (arith, count_of-tally_all j ks (tally k m), count_of-tally k j m)

-- A tally of one name more
count_of-tally_cons :
    (j k : String) (ks : List String)
    → count_of j (tally_all (k ∷ ks) []) ≡ plus_if (k == j) (count_of j (tally_all ks []))
unfolding occurrences
count_of-tally_cons j k ks =
    ground (arith, count_of-tally_all j (k ∷ ks) [], count_of-tally_all j ks [])

length-filter_cons :
    (p : ApiCallEntry → Bool) (e : ApiCallEntry) (es : List ApiCallEntry)
    → length (filter p (e ∷ es)) ≡ plus_if (p e) (length (filter p es))
length-filter_cons p e es = ground arith

-- No error, and a status from 200 to 299
abbrev pub has_answer : CallData → Bool
has_answer c = elim c.error_info [
  | some e ↦ false
  | none ↦ elim c.status [ none ↦ false | some n ↦ leb 200 n && leb n 299 ]
]

is_success-has_answer : (c : CallData) → is_success c ≡ has_answer c
is_success-has_answer c = ground arith

log_api_call-room :
    (room : List ApiCallEntry → Bool) (now : ℕ) (c : CallData) (history : List ApiCallEntry)
    → length history < 50
    → room (new_entry now c ∷ history) ≡ true
    → log_api_call room now c history ≡ new_entry now c ∷ history
unfolding log_api_call
log_api_call-room room now c history short r =
    let whole = take-all 50 (new_entry now c ∷ history) (omega arith) in ground (arith, whole, r)

-- How the statistics `t` differ from `s` by the call `c` that is logged at `now`: it counts as a
-- success just when it has no error and a status from 200 to 299, and under its method, which is
-- GET if it has none, and its endpoint.
pub record Counted (now : ℕ) (c : CallData) (s t : ApiCallStats) : Type 0 where
  pub total_calls : t.total_calls ≡ suc s.total_calls
  pub successful_calls : t.successful_calls ≡ plus_if (has_answer c) s.successful_calls
  pub failed_calls : t.failed_calls ≡ plus_if (not (has_answer c)) s.failed_calls
  pub method_counts :
      (k : String)
      → count_of k t.method_counts
        ≡ plus_if (or_else c.method "GET" == k) (count_of k s.method_counts)
  pub endpoint_counts :
      (k : String)
      → count_of k t.endpoint_counts
        ≡ plus_if (or_else c.endpoint "" == k) (count_of k s.endpoint_counts)
  pub newest_call : t.newest_call ≡ some (number_or c.timestamp now)

consed-Counted :
    (now later : ℕ) (c : CallData) (history : List ApiCallEntry)
    → Counted now c
        (get_api_call_stats later history)
        (get_api_call_stats later (new_entry now c ∷ history))
unfolding get_api_call_stats new_entry first_timestamp
consed-Counted now later c history = record {
  total_calls = refl;
  successful_calls = ground (arith, is_success-has_answer c);
  failed_calls = ground (arith, is_success-has_answer c);
  method_counts = λ k. count_of-tally_cons k (or_else c.method "GET") (map (λ e. e.method) history);
  endpoint_counts =
      λ k. count_of-tally_cons k (or_else c.endpoint "") (map (λ e. e.endpoint) history);
  newest_call = refl;
}

-- Where the history has fewer than 50 entries and the storage has room, a call that is logged
-- changes the statistics by itself alone: one call more, a success just when it has no error and a
-- status from 200 to 299 and a failure otherwise, one more under its method, which is GET if it has
-- none, and under its endpoint, none under any other, and the newest call at its time.
pub log_api_call-Counted :
    (room : List ApiCallEntry → Bool) (now later : ℕ) (c : CallData) (history : List ApiCallEntry)
    → length history < 50
    → room (log_api_call (λ h. true) now c history) ≡ true
    → Counted now c
        (get_api_call_stats later history)
        (get_api_call_stats later (log_api_call room now c history))
log_api_call-Counted room now later c history short r =
    rw
      (log_api_call-room room now c history short
        (ground (arith, log_api_call-room (λ h. true) now c history short refl, r)))
      (consed-Counted now later c history)

abbrev pub log_all :
    (List ApiCallEntry → Bool) → List (ℕ × CallData) → List ApiCallEntry → List ApiCallEntry
log_all room [] history = history
log_all room ((now, c) ∷ cs) history = log_all room cs (log_api_call room now c history)

length-kept :
    (n : ℕ) (b : Bool) (xs ys : List ApiCallEntry)
    → length ys ≤ n
    → length (if b then take n xs else ys) ≤ n
length-kept n true xs ys h = omega (arith, length-take n xs)
length-kept n false xs ys h = h

-- The history never has more than 50 entries, whatever the storage has room for.
pub length-log_all :
    (room : List ApiCallEntry → Bool) (cs : List (ℕ × CallData)) (history : List ApiCallEntry)
    → length history ≤ 50
    → length (log_all room cs history) ≤ 50
unfolding log_api_call
length-log_all room [] history h = h
length-log_all room ((now, c) ∷ cs) history h =
    length-log_all room cs (log_api_call room now c history)
      (length-kept 50 _ (new_entry now c ∷ history) history h)
