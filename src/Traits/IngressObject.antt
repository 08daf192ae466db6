-- ===== src/Traits/IngressObject.antt =====
-- `Ingress::to_ext_ingress`. The object holds the fields of the API's ingress that are set; its one
-- rule has one path.
use rudr.Prelude.{String, Option, some, ◌<>◌, or_else}
use rudr.Prelude.Int.{ℤ}
use rudr.BTreeMap.{BTreeMap}
use rudr.Traits.{Ingress, OwnerRefs, trait_labels}

pub record ExtIngress : Type 0 where
  pub name : String
  pub labels : BTreeMap String
  pub owner_references : OwnerRefs
  pub host : Option String
  pub service_name : String
  pub service_port : ℤ
  pub path : Option String

unfoldable pub ingress_kube_name : Ingress → String
ingress_kube_name self = self.instance_name <> "-trait-ingress"

unfoldable pub to_ext_ingress : Ingress → ExtIngress
unfolding ingress_kube_name trait_labels
to_ext_ingress self = record {
  name = ingress_kube_name self;
  labels = trait_labels self.name self.instance_name;
  owner_references = self.owner_ref;
  host = or_else self.hostname (some "example.com");
  service_name = self.instance_name;
  service_port = self.svc_port;
  path = or_else self.path (some "/");
}
