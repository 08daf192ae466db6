-- ===== src/HealthScope.antt =====
-- The custom resource of src/schematic/scopes/health.rs: the object that holds a health scope and
-- the components in it. A double is held as its bit pattern.
use rudr.Prelude.{ℕ, String, Bool, false, Option, List, unwrap_or}
use rudr.Prelude.Int.{ℤ}
use rudr.Cluster.{OwnerReference}

pub record HealthScope : Type 0 where
  pub probe_method : String
  pub probe_endpoint : String
  pub probe_timeout : Option ℤ
  pub probe_interval : Option ℤ
  pub failure_rate_threshold : Option ℕ
  pub healthy_rate_threshold : Option ℕ
  pub health_threshold_percentage : Option ℕ
  pub required_healthy_components : Option (List String)

pub record ComponentInfo : Type 0 where
  pub name : String
  pub instance_name : String
  pub status : Option String

pub record HealthStatus : Type 0 where
  pub components : Option (List ComponentInfo)
  pub last_aggregate_timestamp : Option String

-- An owner in the `kube` crate's own form, whose flags are never absent.
pub record KubeOwner : Type 0 where
  pub controller : Bool
  pub block_owner_deletion : Bool
  pub name : String
  pub api_version : String
  pub kind : String
  pub uid : String

unfoldable pub convert_owner_ref : OwnerReference → KubeOwner
convert_owner_ref owner = record {
  controller = unwrap_or owner.controller false;
  block_owner_deletion = unwrap_or owner.block_owner_deletion false;
  name = owner.name;
  api_version = owner.api_version;
  kind = owner.kind;
  uid = owner.uid;
}

-- `HealthScopeObject`, with the fields of its types and metadata that the source sets.
pub record HealthScopeObject : Type 0 where
  pub spec : HealthScope
  pub api_version : Option String
  pub kind : Option String
  pub name : String
  pub owner_references : List KubeOwner
  pub status : Option HealthStatus
