-- ===== src/Scopes.antt =====
-- src/schematic/scopes.rs and the modules below it: application scopes.
-- The messages of errors leave out the parameters that they print. The client of a scope is the server that its operations take.
pub mod HealthOps
pub mod NetworkOps
pub mod Membership
pub mod Patching
mod Tests
use rudr.Prelude.{
  String, Bool, true, false, Option, none, some, List, [], ◌∷◌, Result, ok, err, unwrap_or, ◌>>=◌,
  and_then, ◌==◌, if◌then◌else◌,
}
use rudr.Json.{Serde}
use rudr.Parameter.{ParameterValue}
use rudr.Configuration.{ComponentConfiguration}
use rudr.Cluster.{OwnerReference}
use rudr.HealthScope.{convert_owner_ref}
use rudr.Client.{Server, Error, message, Action}
use rudr.Scopes.HealthOps
use rudr.Scopes.HealthOps.{Health}
use rudr.Scopes.NetworkOps
use rudr.Scopes.NetworkOps.{Network}

pub data OamScope : Type 0 where
  health : Health → OamScope
  network : Network → OamScope

unfoldable pub allow_overlap : OamScope → Bool
allow_overlap (health h) = HealthOps.allow_overlap h
allow_overlap (network n) = NetworkOps.allow_overlap n

unfoldable pub scope_type : OamScope → String
scope_type (health h) = HealthOps.scope_type h
scope_type (network n) = NetworkOps.scope_type n

module _ (server : Server) where
  unfoldable pub create : OamScope → OwnerReference → Action (Unit {0})
  unfolding convert_owner_ref
  create (health h) owner = HealthOps.create server h (convert_owner_ref owner)
  create (network n) owner = NetworkOps.create n owner

  unfoldable pub modify : OamScope → Action (Unit {0})
  modify (health h) = HealthOps.modify h
  modify (network n) = NetworkOps.modify n

  unfoldable pub delete : OamScope → Action (Unit {0})
  delete (health h) = HealthOps.delete h
  delete (network n) = NetworkOps.delete n

  unfoldable pub add : OamScope → ComponentConfiguration → Action (Unit {0})
  add (health h) spec = HealthOps.add server h spec
  add (network n) spec = NetworkOps.add n spec

  unfoldable pub remove : OamScope → ComponentConfiguration → Action (Unit {0})
  remove (health h) spec = HealthOps.remove server h spec
  remove (network n) spec = NetworkOps.remove n spec

-- `load_scope_by_type` of src/instigator.rs, which `load_scope` calls with the type of a binding.
unfoldable pub load_scope_by_type :
    Serde → String → String → String → List ParameterValue → Result Error OamScope
load_scope_by_type serde namespace instance_name scope_type param =
    if scope_type == "core.oam.dev/v1alpha1.NetworkScope"
    then (NetworkOps.from_params instance_name namespace param >>= λ n. ok (network n))
    else if scope_type == "core.oam.dev/v1alpha1.HealthScope"
    then (HealthOps.from_params serde instance_name namespace param >>= λ h. ok (health h))
    else err (message "unknown scope type")
