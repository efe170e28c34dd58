-- ===== src/Triggers/Tests.antt =====
-- Evaluations of a trigger at concrete inputs, with whole numbers.
use net_test_toy.Triggers.{
  Numbers, TopTalker, Trigger, TriggerState, evaluate, fire, fire_matched, get_aggregated_stats,
  key_of, matched,
}
use net_test_toy.Triggers.Firing.{has_fired, matching_fires}
use net_test_toy.Triggers.Cooldown.{Spaced, notifications-Spaced, run_evaluations}
use net_test_toy.Base.{
  List, [], arith, ltb, map, none, refl, some, text_dec, true, ℕ, ◌++◌, ◌/◌, ◌∷◌, ◌≡◌,
}
use net_test_toy.Base.Texts.{decimal}

abbrev whole : Numbers ℕ
whole = record { below = ltb; over = λ a b. a / b; of_count = λ n. n; to_fixed2 = decimal }

abbrev busy : TopTalker ℕ
busy = record { address = "10.0.0.7"; bytes = 900; packets = 12; flows = 3; avg_bps = 4000000 }

abbrev rate : Trigger ℕ
rate = record {
  id = "t1";
  name = "rate";
  enabled = true;
  conditions = record {
    min_kbps = some 100;
    min_mbps = none;
    min_pps = none;
    min_bytes = some 500;
    src_addr = none;
    dst_addr = none;
    src_or_dst_addr = some "10.0.0.7";
    protocol = none;
  };
  action = record { action_type = "alert"; message = none };
}

abbrev fresh : TriggerState ℕ
fresh = record { last_trigger_times = []; fired = [] }

abbrev ticks : List (ℕ × List (Trigger ℕ) × List (TopTalker ℕ))
ticks =
    (100000, rate ∷ [], busy ∷ [])
    ∷ (130000, rate ∷ [], busy ∷ [])
    ∷ (160000, rate ∷ [], busy ∷ [])
    ∷ []

notifications-Spaced_example : Spaced 60000 (run_evaluations whole 60000 ticks fresh).fired
notifications-Spaced_example =
    notifications-Spaced whole 60000 ticks (omega arith, (omega arith, (omega arith, tt)))

fired_twice : map (λ f. f.at) (run_evaluations whole 60000 ticks fresh).fired ≡ 160000 ∷ 100000 ∷ []
unfolding evaluate text_dec fire_matched matched fire
fired_twice = refl

matching_fires_example :
    has_fired 100000 "t1-10.0.0.7"
      (evaluate whole 60000 100000 ([] ++ rate ∷ []) (busy ∷ []) fresh).fired
    ≡ true
unfolding matched get_aggregated_stats key_of text_dec
matching_fires_example =
    matching_fires whole 60000 100000 [] [] rate (busy ∷ []) _ fresh (omega arith) refl tt
