-- ===== src/Instigator/Tests.antt =====
-- Examples of component instances and scopes.
use rudr.Prelude.{
  arith, ◌≡◌, ◌≢◌, ◌<>◌, refl, ◌↔◌, ◌⊎◌, true, false, none, some, List, [], ◌∷◌, ◌++◌, ok, err, map,
}
use rudr.Json.{Value}
use rudr.Json.Example.{example_serde}
use rudr.Cluster.{OwnerReference, KubeError, contains}
use rudr.Instigator.StatusPatch.{IsQuietAfter, retry_patch_status, retry_patch_status_ends}
use rudr.Configuration.{OpResource, ComponentConfiguration, ApplicationConfiguration, ScopeBinding}
use rudr.Lifecycle.{Phase}
use rudr.Parameter.{ParameterValue}
use rudr.Client.Example.{absent}
use rudr.Client.{
  Server, Request, OwnerRefs, delete, create, component_instance, component_instances,
}
use rudr.Scopes.{OamScope, network, scope_type, load_scope_by_type}
use rudr.Instigator.{combine_name, load_scopes}
use rudr.Instigator.Instances.{
  instance_owner, new_instance, delete_component_instance, get_new_own_ref,
  create_component_instance,
}
use rudr.Instigator.Laws.{
  combine_name_collision, delete_component_instance_lem, scope_type-load_scopes,
}
use rudr.Instigator.Owners.{IsOwnersIn, get_new_own_ref_lem}

combined_names_collide :
    combine_name ("web" <> ("-" <> "a")) "one" ≡ combine_name "web" ("a" <> ("-" <> "one"))
combined_names_collide = combine_name_collision "web" "a" "one"

-- A server on which nothing is found, and every object that is created gets an identity.
abbrev empty_cluster : Server
empty_cluster = record absent {
  read_object = λ _ _. ok (record {
    name = "web-one";
    namespace = none;
    uid = some "1";
    resource_version = none;
    annotations = [];
  });
}

missing_instance_deleted :
    ((delete_component_instance empty_cluster "default" "web" "one" []).1
      ≡ [] ++ (delete "default" component_instances (combine_name "web" "one") ∷ []))
    × (((delete_component_instance empty_cluster "default" "web" "one" []).0 ≡ ok tt) ↔ (
        (empty_cluster.accept [] (delete "default" component_instances (combine_name "web" "one"))
          ≡ ok tt)
        ⊎ ((e : KubeError) × (empty_cluster.accept []
                (delete "default" component_instances (combine_name "web" "one"))
              ≡ err e)
            × (contains "NotFound" e.text ≡ true))))
missing_instance_deleted = delete_component_instance_lem empty_cluster "default" "web" "one" []

abbrev one : ComponentConfiguration
one = record {
  component_name = "web";
  instance_name = "one";
  parameter_values = none;
  traits = none;
  application_scopes = none;
}

abbrev app : OwnerReference
app = record {
  api_version = "core.oam.dev/v1alpha1";
  kind = "ApplicationConfiguration";
  uid = "0";
  controller = some true;
  block_owner_deletion = some true;
  name = "app";
}

abbrev made : List Request
made = create "default" component_instances (component_instance (new_instance "web-one" app)) ∷ []

owned :
    get_new_own_ref empty_cluster "default" Phase.add one app []
    ≡ (ok (some (instance_owner "web-one" "1" ∷ [])), made)
unfolding get_new_own_ref rudr.Client.◌>>=◌ create_component_instance rudr.Client.unwrap_or_else
    rudr.Client.request rudr.Client.pure combine_name
owned = refl

get_new_own_ref_lem_example :
    IsOwnersIn empty_cluster "default" one app Phase.add
      (some (instance_owner "web-one" "1" ∷ []))
      []
      made
get_new_own_ref_lem_example =
    get_new_own_ref_lem empty_cluster "default" Phase.add one app [] made
      (some (instance_owner "web-one" "1" ∷ [])) owned

abbrev net : ScopeBinding
net = record {
  name = "net";
  scope_type = "core.oam.dev/v1alpha1.NetworkScope";
  parameter_values = some (
      record { name = "network-id"; value = some (Value.string "n"); from_param = none }
      ∷ record { name = "subnet-id"; value = some (Value.string "s"); from_param = none }
      ∷ []);
}

abbrev configuration : ApplicationConfiguration
configuration = record { variables = none; scopes = some (net ∷ []); components = none }

abbrev loaded : List OamScope
loaded =
    network (record {
      namespace = "default";
      name = "app";
      allow_component_overlap = false;
      network_id = "n";
      subnet_id = "s";
      internet_gateway_type = none;
    })
    ∷ []

loaded_lem : load_scopes example_serde "default" "app" [] configuration ≡ ok loaded
unfolding load_scopes rudr.Variable.resolve_variables rudr.Variable.parse_from_variable
    load_scope_by_type rudr.Scopes.NetworkOps.from_params rudr.Parameter.extract_string_params
loaded_lem = refl

scope_type-load_scopes_example :
    map scope_type loaded ≡ map (λ (b : ScopeBinding). b.scope_type) (net ∷ [])
scope_type-load_scopes_example =
    scope_type-load_scopes example_serde "default" "app" [] configuration loaded loaded_lem

abbrev event : OpResource
event = record {
  api_version = some "core.oam.dev/v1alpha1";
  kind = some "ApplicationConfiguration";
  metadata = record {
    name = "app";
    namespace = none;
    uid = some "0";
    resource_version = some "7";
    annotations = [];
  };
  spec = configuration;
  status = none;
}

-- A cluster whose first answer is a conflict.
abbrev busy_cluster : Server
busy_cluster = record empty_cluster {
  read_configuration = λ log _. elim log [
    | [] ↦ err (record { api_reason = some "Conflict"; text = "conflict" })
    | _ ∷ _ ↦ ok event
  ];
}

busy_cluster-IsQuietAfter : IsQuietAfter busy_cluster 1
busy_cluster-IsQuietAfter [] r e h answered = absurd (omega arith)
busy_cluster-IsQuietAfter (x ∷ log) r e h answered = cc answered

patch_ends : (retry_patch_status busy_cluster "default" "app" none none 2 event []).0 ≢ ok none
patch_ends =
    retry_patch_status_ends busy_cluster "default" "app" none none 1 1 event []
      busy_cluster-IsQuietAfter (omega arith)
