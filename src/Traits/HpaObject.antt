-- ===== src/Traits/HpaObject.antt =====
-- `Autoscaler::to_horizontal_pod_autoscaler`. A metric is its resource's name and its target average
-- utilization; all metrics have the type "Resource".
use rudr.Prelude.{String, Option, none, some, List, [], ◌∷◌, ◌++◌, ◌<>◌, unwrap_or}
use rudr.Prelude.Int.{ℤ, pos, add_i32}
use rudr.BTreeMap.{BTreeMap}
use rudr.Traits.{Autoscaler, OwnerRefs, trait_labels}

pub record HorizontalPodAutoscaler : Type 0 where
  pub name : String
  pub labels : BTreeMap String
  pub owner_references : OwnerRefs
  pub min_replicas : Option ℤ
  pub max_replicas : ℤ
  pub metrics : List (String × ℤ)
  pub target_api_version : String
  pub target_kind : String
  pub target_name : String

unfoldable pub autoscaler_kube_name : Autoscaler → String
autoscaler_kube_name self = self.instance_name <> "-trait-autoscaler"

metric : String → Option ℤ → List (String × ℤ)
metric name none = []
metric name (some target) = (name, target) ∷ []

-- `10 + minimum` wraps as the release build does.
unfoldable pub to_horizontal_pod_autoscaler : Autoscaler → HorizontalPodAutoscaler
unfolding autoscaler_kube_name metric trait_labels
to_horizontal_pod_autoscaler self = record {
  name = autoscaler_kube_name self;
  labels = trait_labels self.name self.instance_name;
  owner_references = self.owner_ref;
  min_replicas = self.minimum;
  max_replicas = unwrap_or self.maximum (add_i32 (pos 10) (unwrap_or self.minimum (pos 0)));
  metrics = metric "cpu" self.cpu ++ metric "memory" self.memory;
  target_api_version = "apps/v1";
  target_kind = "Deployment";
  target_name = self.instance_name;
}
