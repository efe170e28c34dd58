-- ===== src/Triggers/Firing.antt =====
-- hooks/useTriggerEvaluation.ts: a trigger that matches, and is not in its cooldown, fires.
use net_test_toy.Triggers.{
  Fired, IpStats, Numbers, TopTalker, Trigger, TriggerState, clean_up, evaluate, evaluate_all,
  evaluate_one, fire, fire_matched, get_aggregated_stats, in_cooldown, key_of, last_time, matched,
}
use net_test_toy.Base.{
  All, Bool, Bool-cases, List, Option, String, [], any, arith, false, inl, inr, leb, none, some,
  true, ℕ, ◌&&◌, ◌++◌, ◌+◌, ◌==◌, ◌∷◌, ◌≡◌, ◌≤◌, ◌⊎◌,
}
use net_test_toy.Base.Dict.{Dict, insert}

-- No time of the key `k` is younger than the period.
abbrev pub Quiet : ℕ → ℕ → String → Dict ℕ → Type 0
Quiet c now k m = All (λ e. e.0 == k ≡ true → e.1 + c ≤ now) m

last_time-Quiet :
    (c now : ℕ) (k : String) (m : Dict ℕ) → c ≤ now → Quiet c now k m → last_time k m + c ≤ now
last_time-Quiet c now k [] h q = omega arith
last_time-Quiet c now k ((j, t) ∷ m) h q = ground (arith, q.0, last_time-Quiet c now k m h q.1)

clean_up-Quiet :
    (c now : ℕ) (k : String) (m : Dict ℕ) → Quiet c now k m → Quiet c now k (clean_up c now m)
clean_up-Quiet c now k [] q = tt
clean_up-Quiet c now k ((j, t) ∷ m) q = ground (arith, clean_up-Quiet c now k m q.1)

insert-Quiet :
    (c now : ℕ) (k j : String) (m : Dict ℕ)
    → j == k ≡ false
    → Quiet c now k m
    → Quiet c now k (insert j now m)
insert-Quiet c now k j [] e q = (λ p. ground arith, tt)
insert-Quiet c now k j ((i, t) ∷ m) e q = ground (arith, insert-Quiet c now k j m e q.1)

module _ {N : Type 0} where
  -- There is a notification of the key `k` at the time `now`.
  abbrev pub has_fired : ℕ → String → List (Fired N) → Bool
  has_fired now k = any (λ f. f.cooldown_key == k && leb f.at now && leb now f.at)

module _ {N : Type 0} (numbers : Numbers N) (c : ℕ) where
  -- The key `k` has fired at this time, or it can.
  abbrev Ready : ℕ → String → TriggerState N → Type 0
  Ready now k s = (has_fired now k s.fired ≡ true) ⊎ Quiet c now k s.last_trigger_times

  fire-Ready :
      (now : ℕ) (k : String) (t : Trigger N) (x : IpStats N) (s : TriggerState N)
      → Ready now k s
      → Ready now k (fire numbers c now t x s)
  unfolding fire
  fire-Ready now k t x s r =
      let j : String = key_of numbers t x in
      let m : Dict ℕ = s.last_trigger_times in
      elim (Bool-cases (in_cooldown c now j m)) [
        | inl e ↦ rw e r
        | inr e ↦ elim (Bool-cases (j == k)) [
          | inl same ↦ inl (ground (arith, e, same))
          | inr differ ↦ elim r [
            | inl fired ↦ inl (ground (arith, e, fired))
            | inr q ↦
                rw e (
                  inr (clean_up-Quiet c now k (insert j now m) (insert-Quiet c now k j m differ q)))
          ]
        ]
      ]

  fire-has_fired :
      (now : ℕ) (t : Trigger N) (x : IpStats N) (s : TriggerState N)
      → c ≤ now
      → Ready now (key_of numbers t x) s
      → has_fired now (key_of numbers t x) (fire numbers c now t x s).fired ≡ true
  unfolding fire
  fire-has_fired now t x s h (inl e) = ground (arith, e)
  fire-has_fired now t x s h (inr q) =
      ground (arith, last_time-Quiet c now (key_of numbers t x) s.last_trigger_times h q)

  matched-Ready :
      (now : ℕ) (k : String) (t : Trigger N) (o : Option (IpStats N)) (s : TriggerState N)
      → Ready now k s
      → Ready now k (fire_matched numbers c now t o s)
  unfolding fire_matched
  matched-Ready now k t none s r = r
  matched-Ready now k t (some x) s r = fire-Ready now k t x s r

  fire-keeps :
      (now : ℕ) (k : String) (t : Trigger N) (o : Option (IpStats N)) (s : TriggerState N)
      → has_fired now k s.fired ≡ true
      → has_fired now k (fire_matched numbers c now t o s).fired ≡ true
  unfolding fire_matched fire
  fire-keeps now k t none s e = e
  fire-keeps now k t (some x) s e = ground (arith, e)

  evaluate_all-keeps :
      (now : ℕ) (k : String) (stats : List (IpStats N)) (ts : List (Trigger N)) (s : TriggerState N)
      → has_fired now k s.fired ≡ true
      → has_fired now k (evaluate_all numbers c now stats ts s).fired ≡ true
  unfolding evaluate_all evaluate_one fire_matched
  evaluate_all-keeps now k stats [] s e = e
  evaluate_all-keeps now k stats (t ∷ ts) s e =
      evaluate_all-keeps now k stats ts (fire_matched numbers c now t (matched numbers t stats) s)
        (fire-keeps now k t (matched numbers t stats) s e)

  evaluate_all-has_fired :
      (now : ℕ) (stats : List (IpStats N)) (before after : List (Trigger N)) (t : Trigger N)
      (x : IpStats N) (s : TriggerState N)
      → c ≤ now
      → matched numbers t stats ≡ some x
      → Ready now (key_of numbers t x) s
      → has_fired now
          (key_of numbers t x)
          (evaluate_all numbers c now stats (before ++ t ∷ after) s).fired
        ≡ true
  unfolding evaluate_all evaluate_one fire_matched
  evaluate_all-has_fired now stats [] after t x s h e r =
      evaluate_all-keeps now (key_of numbers t x) stats after _
        (rw (e, fire_matched) (fire-has_fired now t x s h r))
  evaluate_all-has_fired now stats (b ∷ bs) after t x s h e r =
      evaluate_all-has_fired now stats bs after t x _ h e
        (matched-Ready now (key_of numbers t x) b (matched numbers b stats) s r)

  -- A trigger that matches fires, wherever it stands among the triggers: where no time of its key is
  -- younger than the period, there is a notification of that key after the evaluation.
  pub matching_fires :
      (now : ℕ) (before after : List (Trigger N)) (t : Trigger N) (talkers : List (TopTalker N))
      (x : IpStats N) (s : TriggerState N)
      → c ≤ now
      → matched numbers t (get_aggregated_stats numbers talkers) ≡ some x
      → Quiet c now (key_of numbers t x) s.last_trigger_times
      → has_fired now
          (key_of numbers t x)
          (evaluate numbers c now (before ++ t ∷ after) talkers s).fired
        ≡ true
  unfolding evaluate
  matching_fires now before after t talkers x s h e q =
      evaluate_all-has_fired now (get_aggregated_stats numbers talkers) before after t x s h e
        (inr q)
