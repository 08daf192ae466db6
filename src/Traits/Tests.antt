-- ===== src/Traits/Tests.antt =====
-- Examples of traits.
use rudr.Prelude.{◌≡◌, refl, none, some, arith}
use rudr.Prelude.Int.{pos}
use rudr.Traits.{Autoscaler}
use rudr.Traits.HpaObject.{to_horizontal_pod_autoscaler}
use rudr.Traits.Laws.{ten_more, max_replicas_default}

abbrev scaler : Autoscaler
scaler = record {
  name = "app";
  instance_name = "first";
  component_name = "web";
  minimum = some (pos 3);
  maximum = none;
  cpu = some (pos 80);
  memory = none;
  owner_ref = none;
}

max_replicas_default_example : (to_horizontal_pod_autoscaler scaler).max_replicas ≡ ten_more (pos 3)
max_replicas_default_example = max_replicas_default scaler refl (omega arith) (omega arith)
