-- ===== src/Triggers.antt =====
-- hooks/useTriggerEvaluation.ts: the evaluation of triggers, and their cooldown. Times are
-- milliseconds.
use mathlib.Core.Option
mod Types
pub mod Cooldown
pub mod Firing
mod Tests
pub use Types.*
use net_test_toy.Base.{
  Bool, List, Option, String, [], false, filter, find, if◌then◌else◌, ltb, map, none, not, some, ℕ,
  ◌&&◌, ◌*◌, ◌+◌, ◌<>◌, ◌==◌, ◌∷◌,
}
use net_test_toy.Base.Dict.{Dict, insert, lookup}
use net_test_toy.Storage.{or_else, truthy}

-- `lastTriggerTimes.current.get(key) || 0`
abbrev pub last_time : String → Dict ℕ → ℕ
last_time k times = elim (lookup k times) [ none ↦ 0 | some t ↦ t ]

module _ (cooldown_period : ℕ) where
  -- The entries that are not older than two periods
  abbrev pub clean_up : ℕ → Dict ℕ → Dict ℕ
  clean_up now = filter (λ e. not (ltb (e.1 + cooldown_period * 2) now))

  -- `now - lastTime < cooldownPeriod`
  abbrev pub in_cooldown : ℕ → String → Dict ℕ → Bool
  in_cooldown now k times = ltb now (last_time k times + cooldown_period)

module _ {N : Type 0} (numbers : Numbers N) where
  stats_of : TopTalker N → IpStats N
  stats_of t = record {
    address = t.address;
    bytes = t.bytes;
    packets = t.packets;
    flows = t.flows;
    bps = t.avg_bps;
    kbps = numbers.over t.avg_bps (numbers.of_count 1000);
    mbps = numbers.over t.avg_bps (numbers.of_count 1000000);
    pps =
        if ltb 0 t.flows
        then numbers.over (numbers.of_count t.packets) (numbers.of_count t.flows)
        else numbers.of_count 0;
  }

  pub get_aggregated_stats : List (TopTalker N) → List (IpStats N)
  unfolding stats_of
  get_aggregated_stats = map stats_of

  -- An address filter that is set and is not the address
  filtered_out : Option String → String → Bool
  filtered_out wanted address = elim (truthy wanted) [ none ↦ false | some w ↦ not (address == w) ]

  -- A threshold that is set and not reached
  missed : Option N → N → Bool
  missed none n = false
  missed (some least) n = numbers.below n least

  all_conditions_met : TriggerConditions N → IpStats N → Bool
  unfolding filtered_out missed
  all_conditions_met c s =
      not (filtered_out c.src_addr s.address)
      && not (filtered_out c.dst_addr s.address)
      && not (filtered_out c.src_or_dst_addr s.address)
      && not (missed c.min_kbps s.kbps)
      && not (missed c.min_mbps s.mbps)
      && not (missed c.min_pps s.pps)
      && not (missed c.min_bytes (numbers.of_count s.bytes))

  -- The first statistics that meet the conditions of the trigger
  pub evaluate_trigger : Trigger N → List (IpStats N) → Option (IpStats N)
  unfolding all_conditions_met
  evaluate_trigger t stats =
      if t.enabled then find (all_conditions_met t.conditions) stats else none

  -- An empty address is as good as none.
  pub matched : Trigger N → List (IpStats N) → Option (IpStats N)
  unfolding evaluate_trigger
  matched t stats = elim (evaluate_trigger t stats) [
    | none ↦ none
    | some s ↦ if s.address == "" then none else some s
  ]

  pub key_of : Trigger N → IpStats N → String
  key_of t s = or_else (some t.id) t.name <> ("-" <> s.address)

  notification_of : Trigger N → IpStats N → NotificationEvent N
  notification_of t s = record {
    trigger_name = t.name;
    action_type = t.action.action_type;
    src = s.address;
    dst = s.address;
    kbps = s.kbps;
    mbps = s.mbps;
    message = or_else t.action.message (
        "Trigger '"
        <> (t.name
            <> ("' fired: " <> (s.address <> (" at " <> (numbers.to_fixed2 s.mbps <> " Mbps"))))));
    severity = if t.action.action_type == "flowspec" then "warning" else "info";
  }

module _ {N : Type 0} (numbers : Numbers N) (cooldown_period : ℕ) where
  pub fire : ℕ → Trigger N → IpStats N → TriggerState N → TriggerState N
  unfolding key_of notification_of
  fire now t s st =
      let k : String = key_of numbers t s in
      if in_cooldown cooldown_period now k st.last_trigger_times then st else record {
        last_trigger_times = clean_up cooldown_period now (insert k now st.last_trigger_times);
        fired =
            record { cooldown_key = k; at = now; notification = notification_of numbers t s }
            ∷ st.fired;
      }

  -- `continue` where nothing has matched
  pub fire_matched : ℕ → Trigger N → Option (IpStats N) → TriggerState N → TriggerState N
  fire_matched now t none st = st
  fire_matched now t (some s) st = fire now t s st

  pub evaluate_one : ℕ → List (IpStats N) → Trigger N → TriggerState N → TriggerState N
  evaluate_one now stats t st = fire_matched now t (matched numbers t stats) st

  pub evaluate_all : ℕ → List (IpStats N) → List (Trigger N) → TriggerState N → TriggerState N
  unfolding evaluate_one
  evaluate_all now stats [] st = st
  evaluate_all now stats (t ∷ ts) st = evaluate_all now stats ts (evaluate_one now stats t st)

  -- One evaluation: with no statistics every trigger is passed over.
  pub evaluate : ℕ → List (Trigger N) → List (TopTalker N) → TriggerState N → TriggerState N
  unfolding evaluate_all get_aggregated_stats
  evaluate now triggers talkers st =
      evaluate_all now (get_aggregated_stats numbers talkers) triggers st
