-- ===== src/Traits.antt =====
-- src/schematic/traits.rs and the modules below it: the traits and how they are read from the
-- properties of a binding. `None` stands for properties that are not an object.
pub mod IngressObject
pub mod HpaObject
pub mod Claim
pub mod Laws
mod Tests
use rudr.Prelude.{
  String, Bool, true, false, ◌||◌, ◌==◌, Option, none, some, List, [], ◌∷◌, and_then, map_some,
  unwrap_or,
}
use rudr.Prelude.Int.{ℤ, pos, as_i32}
use rudr.BTreeMap
use rudr.BTreeMap.{BTreeMap}
use rudr.Json.{Value, Serde}
use rudr.Cluster.{OwnerReference}
use rudr.Component.{Component}

abbrev pub OwnerRefs : Type 0
OwnerRefs = Option (List OwnerReference)

abbrev pub Properties : Type 0
Properties = Option (BTreeMap Value)

pub record Ingress : Type 0 where
  pub name : String
  pub instance_name : String
  pub component_name : String
  pub svc_port : ℤ
  pub hostname : Option String
  pub path : Option String
  pub owner_ref : OwnerRefs

pub record Autoscaler : Type 0 where
  pub name : String
  pub instance_name : String
  pub component_name : String
  pub minimum : Option ℤ
  pub maximum : Option ℤ
  pub cpu : Option ℤ
  pub memory : Option ℤ
  pub owner_ref : OwnerRefs

pub record ManualScaler : Type 0 where
  pub name : String
  pub instance_name : String
  pub component_name : String
  pub owner_ref : OwnerRefs
  pub replica_count : ℤ
  pub workload_type : String

pub record VolumeMounter : Type 0 where
  pub name : String
  pub instance_name : String
  pub component_name : String
  pub owner_ref : OwnerRefs
  pub component : Component
  pub volume_name : String
  pub storage_class : String

pub data OamTrait : Type 0 where
  autoscaler : Autoscaler → OamTrait
  manual_scaler : ManualScaler → OamTrait
  ingress : Ingress → OamTrait
  volume_mounter : VolumeMounter → OamTrait
  empty : OamTrait

module _ (serde : Serde) where
  -- `map.get(key).and_then(|p| p.as_i64().map(|p64| p64 as i32))`
  unfoldable pub property_i32 : String → Properties → Option ℤ
  unfolding as_i32
  property_i32 key properties_map =
      and_then properties_map
        (λ m. and_then (BTreeMap.get key m) (λ p. map_some as_i32 (serde.as_i64 p)))

  -- `map.get(key).map(|p| p.as_str().unwrap_or("").to_string())`
  unfoldable pub property_text : String → Properties → Option String
  property_text key properties_map =
      and_then properties_map
        (λ m. map_some (λ p. unwrap_or (serde.as_str p) "") (BTreeMap.get key m))

  -- `map.get(key).and_then(|p| p.as_str())`
  unfoldable pub property_str : String → Properties → Option String
  property_str key properties_map =
      and_then properties_map (λ m. and_then (BTreeMap.get key m) serde.as_str)

  module _ (name instance_name component_name : String) (properties_map : Properties)
      (owner_ref : OwnerRefs) where
    unfoldable pub ingress_from_properties : Ingress
    unfolding property_i32 property_text
    ingress_from_properties = record {
      name = name;
      instance_name = instance_name;
      component_name = component_name;
      svc_port = unwrap_or (property_i32 "servicePort" properties_map) (pos 80);
      hostname = property_text "hostname" properties_map;
      path = property_text "path" properties_map;
      owner_ref = owner_ref;
    }

    unfoldable pub autoscaler_from_properties : Autoscaler
    unfolding property_i32
    autoscaler_from_properties = record {
      name = name;
      instance_name = instance_name;
      component_name = component_name;
      minimum = property_i32 "minimum" properties_map;
      maximum = property_i32 "maximum" properties_map;
      cpu = property_i32 "cpu" properties_map;
      memory = property_i32 "memory" properties_map;
      owner_ref = owner_ref;
    }

    unfoldable pub manual_scaler_from_properties : String → ManualScaler
    unfolding property_i32
    manual_scaler_from_properties workload_type = record {
      name = name;
      instance_name = instance_name;
      component_name = component_name;
      owner_ref = owner_ref;
      replica_count = unwrap_or (property_i32 "replicaCount" properties_map) (pos 1);
      workload_type = workload_type;
    }

    unfoldable pub volume_mounter_from_properties : Component → VolumeMounter
    unfolding property_str
    volume_mounter_from_properties component = record {
      name = name;
      instance_name = instance_name;
      component_name = component_name;
      owner_ref = owner_ref;
      component = component;
      volume_name = unwrap_or (property_str "volumeName" properties_map) "";
      storage_class = unwrap_or (property_str "storageClass" properties_map) "";
    }

-- The labels that every trait puts on its objects.
unfoldable pub trait_labels : String → String → BTreeMap String
trait_labels name inst_name =
    BTreeMap.insert "oam.dev/instance-name" inst_name
      (BTreeMap.insert "app.kubernetes.io/name" name (BTreeMap.insert "oam.dev/role" "trait" []))
