-- ===== src/KubeObjects.antt =====
-- The objects that the controllers read from the API or post to it whole, beside those that the
-- workload types build: of an object that is sent back, the part that the source neither reads nor
-- changes is one JSON value.
use rudr.Prelude.{ℕ, String, Option}
use rudr.Prelude.Int.{ℤ}
use rudr.BTreeMap.{BTreeMap}
use rudr.Json.{Value}
use rudr.Cluster.{ObjectMeta}
use rudr.Component.{Component}

-- A deployment or a job: the count in its specification that a scaler sets, with the rest of the
-- specification, and the metadata.
pub record ScalableSpec : Type 0 where
  pub count : Option ℤ
  pub others : Value

pub record ScalableObject : Type 0 where
  pub metadata : Value
  pub spec : Option ScalableSpec
  pub status : Option Value

-- `KubeFaaS` as the API holds it.
pub record DeployedFunction : Type 0 where
  pub labels : BTreeMap String
  pub others : Value

-- `KubeComponent` of src/instigator.rs and `KubeComponentInstance` of
-- src/schematic/component_instance.rs.
pub record KubeComponent : Type 0 where
  pub metadata : ObjectMeta
  pub spec : Component

pub record KubeComponentInstance : Type 0 where
  pub metadata : ObjectMeta
  pub status : Option String

pub record ObjectReference : Type 0 where
  pub api_version : Option String
  pub kind : Option String
  pub name : Option String
  pub namespace : Option String
  pub resource_version : Option String
  pub uid : Option String

-- `v1Event`: the fields that are set. A time is its number of nanoseconds.
pub record KubeEvent : Type 0 where
  pub name : String
  pub namespace : Option String
  pub involved_object : ObjectReference
  pub reporting_component : String
  pub reporting_instance : String
  pub message : String
  pub reason : String
  pub count : ℕ
  pub type_ : String
  pub action : Option String
  pub first_timestamp : Option ℤ
  pub last_timestamp : Option ℤ
