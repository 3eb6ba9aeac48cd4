-- ===== src/Core.antt =====
-- The data model: internal/core/types.go. A time is a number of nanoseconds; A pointer or a map
-- that may be nil is an Option, and a float64 is its literal.
use kube_insight.Prelude.{ℕ, String, Bool, Option}
use kube_insight.Json.{Fields}

pub record ResourceRef : Type 0 where
  pub cluster_id : String
  pub group : String
  pub version : String
  pub resource : String
  pub kind : String
  pub namespace : String
  pub name : String
  pub uid : String

pub data ObservationType : Type 0 where
  added modified deleted bookmark : ObservationType

pub record Observation : Type 0 where
  pub type : ObservationType
  pub observed_at : ℕ
  pub resource_version : String
  pub ref : ResourceRef
  pub object : Option Fields
  pub partial : Bool

pub record Fact : Type 0 where
  pub time : ℕ
  pub object_id : String
  pub key : String
  pub value : String
  pub numeric_value : Option String
  pub severity : ℕ
  pub detail : Option Fields

pub record Edge : Type 0 where
  pub type : String
  pub source_id : String
  pub target_id : String
  pub valid_from : ℕ
  pub valid_to : Option ℕ
  pub detail : Option Fields

pub record Change : Type 0 where
  pub time : ℕ
  pub object_id : String
  pub family : String
  pub path : String
  pub op : String
  pub old : String
  pub new : String
  pub severity : ℕ
