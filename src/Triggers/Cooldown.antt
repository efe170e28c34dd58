-- ===== src/Triggers/Cooldown.antt =====
-- hooks/useTriggerEvaluation.ts: how far apart the notifications with one cooldown key are.
use net_test_toy.Triggers.{
  Fired, IpStats, Numbers, TopTalker, Trigger, TriggerState, clean_up, evaluate, evaluate_all,
  evaluate_one, fire, fire_matched, get_aggregated_stats, in_cooldown, key_of, last_time, matched,
}
use net_test_toy.Base.{
  All, All-mono, Bool-cases, List, Option, String, [], arith, if◌then◌else◌, inl, inr, none, refl,
  some, true, ℕ, ◌*◌, ◌+◌, ◌<◌, ◌==◌, ◌∷◌, ◌≡◌, ◌≤◌, ◌⊎◌,
}
use net_test_toy.Base.Dict.{Dict, insert, lookup-insert}

module _ {N : Type 0} where
  -- The clock does not go back.
  abbrev pub Ordered : ℕ → List (ℕ × List (Trigger N) × List (TopTalker N)) → Type 0
  Ordered start [] = Unit
  Ordered start ((now, triggers, talkers) ∷ ticks) = (start ≤ now) × Ordered now ticks

module _ {N : Type 0} (c : ℕ) where
  -- The notifications with one key are at least `c` milliseconds apart; the newest is the first.
  abbrev pub Spaced : List (Fired N) → Type 0
  Spaced [] = Unit
  Spaced (f ∷ fs) =
      All (λ g. f.cooldown_key == g.cooldown_key ≡ true → g.at + c ≤ f.at) fs × Spaced fs

  -- A notification is over its cooldown, or the time of its key is known.
  abbrev Known : ℕ → Dict ℕ → Fired N → Type 0
  Known now times g = (g.at + c ≤ now) ⊎ (g.at ≤ last_time g.cooldown_key times)

  abbrev pub IsSound : ℕ → TriggerState N → Type 0
  IsSound now s = All (Known now s.last_trigger_times) s.fired × Spaced s.fired

-- A key loses its time only when the time is older than two periods.
last_time-clean_up :
    (c now : ℕ) (k : String) (m : Dict ℕ)
    → (last_time k m ≡ last_time k (clean_up c now m)) ⊎ (last_time k m + c * 2 < now)
last_time-clean_up c now k [] = inl refl
last_time-clean_up c now k ((j, t) ∷ m) = ground (arith, last_time-clean_up c now k m)

last_time-insert :
    (k j : String) (now : ℕ) (m : Dict ℕ)
    → last_time j (insert k now m) ≡ (if k == j then now else last_time j m)
last_time-insert k j now m = ground (arith, lookup-insert k j now m)

module _ {N : Type 0} (numbers : Numbers N) (c : ℕ) where
  -- What is known of a notification when the time of the key `k` becomes `now`
  Known-clean_up :
      (now : ℕ) (k : String) (m : Dict ℕ) (g : Fired N)
      → last_time k m + c ≤ now
      → Known c now m g
      → Known c now (clean_up c now (insert k now m)) g
  Known-clean_up now k m g h known = ground (
    arith,
    last_time-insert k g.cooldown_key now m,
    last_time-clean_up c now g.cooldown_key (insert k now m),
  )

  far_enough :
      (now : ℕ) (k : String) (m : Dict ℕ) (g : Fired N)
      → last_time k m + c ≤ now
      → Known c now m g
      → k == g.cooldown_key ≡ true
      → g.at + c ≤ now
  far_enough now k m g h known e = ground arith

  Known-self :
      (now : ℕ) (k : String) (m : Dict ℕ) → now ≤ last_time k (clean_up c now (insert k now m))
  Known-self now k m =
      ground (arith, last_time-insert k k now m, last_time-clean_up c now k (insert k now m))

  fire-IsSound :
      (now : ℕ) (t : Trigger N) (x : IpStats N) (s : TriggerState N)
      → IsSound c now s
      → IsSound c now (fire numbers c now t x s)
  unfolding fire
  fire-IsSound now t x s i =
      elim (Bool-cases (in_cooldown c now (key_of numbers t x) s.last_trigger_times)) [
        | inl e ↦ rw e i
        | inr e ↦ rw e (
            let k : String = key_of numbers t x in
            let m : Dict ℕ = s.last_trigger_times in
            let over : last_time k m + c ≤ now = ground (arith, e) in
            (
              (
                inr (Known-self now k m),
                All-mono s.fired (λ g known. Known-clean_up now k m g over known) i.0,
              ),
              (All-mono s.fired (λ g known. far_enough now k m g over known) i.0, i.1),
            ))
      ]

  fire_matched-IsSound :
      (now : ℕ) (t : Trigger N) (o : Option (IpStats N)) (s : TriggerState N)
      → IsSound c now s
      → IsSound c now (fire_matched numbers c now t o s)
  unfolding fire_matched
  fire_matched-IsSound now t none s i = i
  fire_matched-IsSound now t (some x) s i = fire-IsSound now t x s i

  evaluate_all-IsSound :
      (now : ℕ) (stats : List (IpStats N)) (ts : List (Trigger N)) (s : TriggerState N)
      → IsSound c now s
      → IsSound c now (evaluate_all numbers c now stats ts s)
  unfolding evaluate_all evaluate_one
  evaluate_all-IsSound now stats [] s i = i
  evaluate_all-IsSound now stats (t ∷ ts) s i =
      evaluate_all-IsSound now stats ts (evaluate_one numbers c now stats t s)
        (fire_matched-IsSound now t (matched numbers t stats) s i)

  Known-later :
      (now later : ℕ) (m : Dict ℕ)
      → now ≤ later
      → (g : Fired N) → Known c now m g
      → Known c later m g
  Known-later now later m h g known = ground arith

  -- A run of evaluations, each with the time, the triggers and the talkers that it finds
  abbrev pub run_evaluations :
      List (ℕ × List (Trigger N) × List (TopTalker N)) → TriggerState N → TriggerState N
  run_evaluations [] s = s
  run_evaluations ((now, triggers, talkers) ∷ ticks) s =
      run_evaluations ticks (evaluate numbers c now triggers talkers s)

  run_evaluations-Spaced :
      (start : ℕ) (ticks : List (ℕ × List (Trigger N) × List (TopTalker N))) (s : TriggerState N)
      → IsSound c start s
      → Ordered start ticks
      → Spaced c (run_evaluations ticks s).fired
  unfolding evaluate
  run_evaluations-Spaced start [] s i o = i.1
  run_evaluations-Spaced start ((now, triggers, talkers) ∷ ticks) s i (h, o) =
      run_evaluations-Spaced now ticks (evaluate numbers c now triggers talkers s)
        (evaluate_all-IsSound now (get_aggregated_stats numbers talkers) triggers s
          (All-mono s.fired (Known-later start now s.last_trigger_times h) i.0, i.1))
        o

  -- From the start, and while the clock does not go back, any two notifications for one trigger and
  -- address are at least a cooldown period apart.
  pub notifications-Spaced :
      (ticks : List (ℕ × List (Trigger N) × List (TopTalker N)))
      → Ordered 0 ticks
      → Spaced c (run_evaluations ticks (record { last_trigger_times = []; fired = [] })).fired
  notifications-Spaced ticks o = run_evaluations-Spaced 0 ticks _ (tt, tt) o
