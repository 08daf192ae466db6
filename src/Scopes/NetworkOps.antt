-- ===== src/Scopes/NetworkOps.antt =====
-- src/schematic/scopes/network.rs: the network scope, whose operations are not implemented.
use rudr.Prelude.{String, Bool, false, Option, List, Result, ok, ◌>>=◌, ok_or}
use rudr.Parameter.{ParameterValue, extract_string_params}
use rudr.Configuration.{ComponentConfiguration}
use rudr.Cluster.{OwnerReference}
use rudr.Client.{Error, message, Action, fail}

pub record Network : Type 0 where
  pub namespace : String
  pub name : String
  pub allow_component_overlap : Bool
  pub network_id : String
  pub subnet_id : String
  pub internet_gateway_type : Option String

unfoldable pub from_params : String → String → List ParameterValue → Result Error Network
from_params name namespace params = do
  network_id ← ok_or (message "network-id is not exist") (extract_string_params "network-id" params)
  subnet_id ← ok_or (message "subnet-id is not exist") (extract_string_params "subnet-id" params)
  ok (record {
    namespace = namespace;
    name = name;
    allow_component_overlap = false;
    network_id = network_id;
    subnet_id = subnet_id;
    internet_gateway_type = extract_string_params "internet-gateway-type" params;
  })

abbrev pub allow_overlap : Network → Bool
allow_overlap self = self.allow_component_overlap

abbrev pub scope_type : Network → String
scope_type self = "core.oam.dev/v1alpha1.NetworkScope"

unfoldable pub create : Network → OwnerReference → Action (Unit {0})
create self owner = fail (message "network scope create not implemented")

unfoldable pub modify : Network → Action (Unit {0})
modify self = fail (message "network scope modify not implemented")

unfoldable pub delete : Network → Action (Unit {0})
delete self = fail (message "network scope delete not implemented")

unfoldable pub add : Network → ComponentConfiguration → Action (Unit {0})
add self spec = fail (message "network scope add component not implemented")

unfoldable pub remove : Network → ComponentConfiguration → Action (Unit {0})
remove self spec = fail (message "network scope remove component not implemented")
