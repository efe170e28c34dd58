-- ===== src/TopologyEdits/Types.antt =====
-- services/topology/types.ts: topologies as the mutations see them. Fields that the mutations only
-- pass on have the type `P`.
use net_test_toy.Base.{List, Option, String}

pub record Node (P : Type 0) : Type 0 where
  pub id : String
  pub content : P

pub record Edge (P : Type 0) : Type 0 where
  pub id : String
  pub source : String
  pub target : String
  pub content : P

pub record Definition (P : Type 0) : Type 0 where
  pub name : String
  pub nodes : List (Node P)
  pub edges : List (Edge P)
  pub content : P

-- What is sent to update a topology: `none` is a field that the update does not have.
pub record Update (P : Type 0) : Type 0 where
  pub nodes : Option (List (Node P))
  pub edges : Option (List (Edge P))

-- `Omit<TopologyEdge, 'id'>`
pub record NewEdge (P : Type 0) : Type 0 where
  pub source : String
  pub target : String
  pub content : P

-- `Partial<TopologyNode>` and `Partial<TopologyEdge>`; `rest` merges the other fields.
pub record EdgeUpdates (P : Type 0) : Type 0 where
  pub source : Option String
  pub target : Option String
  pub rest : P → P

pub data Strategy : Type 0 where
  union intersection : Strategy
