-- ===== src/Triggers/Types.antt =====
-- hooks/useTriggerEvaluation.ts, types/netflow.ts: triggers, statistics and notifications. `N` is
-- the type of the numbers that need not be whole.
use net_test_toy.Base.{Bool, List, Option, String, ℕ}
use net_test_toy.Base.Dict.{Dict}

-- What the hook uses of the browser's numbers
pub record Numbers (N : Type 0) : Type 0 where
  pub below : N → N → Bool
  pub over : N → N → N
  pub of_count : ℕ → N
  pub to_fixed2 : N → String

pub record TopTalker (N : Type 0) : Type 0 where
  pub address : String
  pub bytes : ℕ
  pub packets : ℕ
  pub flows : ℕ
  pub avg_bps : N

pub record IpStats (N : Type 0) : Type 0 where
  pub address : String
  pub bytes : ℕ
  pub packets : ℕ
  pub flows : ℕ
  pub bps : N
  pub kbps : N
  pub mbps : N
  pub pps : N

pub record TriggerConditions (N : Type 0) : Type 0 where
  pub min_kbps : Option N
  pub min_mbps : Option N
  pub min_pps : Option N
  pub min_bytes : Option N
  pub src_addr : Option String
  pub dst_addr : Option String
  pub src_or_dst_addr : Option String
  pub protocol : Option ℕ

pub record TriggerAction : Type 0 where
  pub action_type : String
  pub message : Option String

pub record Trigger (N : Type 0) : Type 0 where
  pub id : String
  pub name : String
  pub enabled : Bool
  pub conditions : TriggerConditions N
  pub action : TriggerAction

pub record NotificationEvent (N : Type 0) : Type 0 where
  pub trigger_name : String
  pub action_type : String
  pub src : String
  pub dst : String
  pub kbps : N
  pub mbps : N
  pub message : String
  pub severity : String

-- A notification, with the key and the time of its cooldown
pub record Fired (N : Type 0) : Type 0 where
  pub cooldown_key : String
  pub at : ℕ
  pub notification : NotificationEvent N

-- `lastTriggerTimes`, and the notifications that have been given, the newest first
pub record TriggerState (N : Type 0) : Type 0 where
  pub last_trigger_times : Dict ℕ
  pub fired : List (Fired N)
