-- ===== src/Workload.antt =====
-- src/workload_type.rs and `WorkloadMetadata` of src/workload_type/workload_builder.rs.
-- The client of the metadata is the server that the operations take.
pub mod Builders
pub mod Core
pub mod Status
pub mod Extended
pub mod Loading
pub mod Dispatch
pub mod Environment
pub mod Plan
pub mod Addition
pub mod Selection
mod Tests
mod ExtendedTests
use rudr.Prelude.{String, Option, none, some, List, [], ◌∷◌, map, Result, ok, err, ◌>>=◌, and_then}
use rudr.BTreeMap
use rudr.BTreeMap.{BTreeMap}
use rudr.Json.{Value, Serde}
use rudr.Parameter.{ParamMap}
use rudr.Component.{Component, WorkloadSetting, get_workload_setting, resolve_param}
use rudr.Component.Containers.{Panic}
use rudr.Component.Configs.{ConfigMaps, evaluate_configs}
use rudr.Client.{Labels, OwnerRefs, ConfigMap}

pub record WorkloadMetadata : Type 0 where
  pub name : String
  pub component_name : String
  pub instance_name : String
  pub namespace : String
  pub definition : Component
  pub params : ParamMap
  pub owner_ref : OwnerRefs
  pub annotations : Option Labels

unfoldable pub labels : WorkloadMetadata → String → Labels
labels self workload_type = BTreeMap.insert "oam.dev/instance-name" self.instance_name (
    BTreeMap.insert "oam.dev/workload-type" workload_type
      (BTreeMap.insert "app.kubernetes.io/name" self.name []))

unfoldable pub select_labels : WorkloadMetadata → Labels
select_labels self =
    BTreeMap.insert "oam.dev/instance-name" self.instance_name
      (BTreeMap.insert "app.kubernetes.io/name" self.name [])

abbrev pub kube_name : WorkloadMetadata → String
kube_name self = self.instance_name

-- `to_config_maps` of src/workload_type/server.rs.
unfoldable pub to_config_maps : ConfigMaps → OwnerRefs → Option Labels → List ConfigMap
to_config_maps configs owner_ref labels =
    map
      (λ (e : String × BTreeMap String). record {
        metadata = record {
          name = e.0;
          labels = labels;
          annotations = none;
          owner_references = owner_ref;
        };
        data_ = e.1;
      })
      configs

-- `WorkloadMetadata::to_config_maps`
unfoldable pub metadata_config_maps :
    Serde → WorkloadMetadata → String → Result Panic (List ConfigMap)
unfolding to_config_maps labels
metadata_config_maps serde self workload_type = do
  configs ← evaluate_configs serde self.params self.definition
  ok (to_config_maps configs self.owner_ref (some (labels self workload_type)))

unfoldable pub get_metadata_setting : WorkloadMetadata → String → Option Value
unfolding get_workload_setting resolve_param
get_metadata_setting self key =
    and_then (get_workload_setting self.definition key) (λ item. resolve_param item self.params)
