-- ===== src/Instigator.antt =====
-- src/instigator.rs: the records by which the controller knows what it has created, the names and
-- owners of component instances, and the loading of application scopes.
-- The parsing of a record from its text is `serde_json`'s and a parameter.
pub mod Instances
pub mod Setting
pub mod Binding
pub mod Execution
pub mod Idle
pub mod Records
pub mod Membership
pub mod Sync
pub mod Convergence
pub mod Ending
pub mod Pending
pub mod Keeping
pub mod Deletion
pub mod Laws
pub mod StatusPatch
pub mod Owners
mod Tests
pub mod ExecutionTests
mod SyncTests
mod MembershipTests
mod DeletionTests
use rudr.Prelude.{
  String, ◌<>◌, ◌==◌, Bool, true, false, not, Option, none, some, List, [], ◌∷◌, Result, ok, err,
  ◌>>=◌, unwrap_or, map_some,
}
use rudr.BTreeMap.{BTreeMap}
use rudr.Json.{Serde}
use rudr.Cluster.{OwnerReference, ObjectMeta, oam_api_version}
use rudr.Configuration.{ComponentConfiguration, ApplicationConfiguration, ScopeBinding}
use rudr.Parameter.{ParameterValue}
use rudr.Variable.{Variable, resolve_variables}
use rudr.Client.{Error, message, panicked}
use rudr.Scopes.{OamScope, load_scope_by_type}

pub record ComponentRecord : Type 0 where
  pub config : ComponentConfiguration
  pub version : String

abbrev pub RecordAnnotation : Type 0
RecordAnnotation = BTreeMap ComponentRecord

unfoldable pub combine_name : String → String → String
combine_name component_name instance_name = component_name <> ("-" <> instance_name)

unfoldable pub config_owner_reference : String → Option String → Result Error OwnerReference
config_owner_reference parent_name none =
    err (message "Mysteriously, no UID was created. Ancient version of Kubernetes?")
config_owner_reference parent_name (some uid) = ok (record {
  api_version = oam_api_version;
  kind = "ApplicationConfiguration";
  uid = uid;
  controller = some true;
  block_owner_deletion = some true;
  name = parent_name;
})

unfoldable pub get_record_annotation :
    (String → Result Error RecordAnnotation) → Option String → Result Error RecordAnnotation
get_record_annotation from_str none = ok []
get_record_annotation from_str (some s) = from_str s

-- `same` is the derived `==` of records.
unfoldable pub check_diff :
    (ComponentRecord → ComponentRecord → Bool) → Option ComponentRecord → ComponentRecord → Bool
check_diff same none new = true
check_diff same (some oldr) new = not (same oldr new)

unfoldable pub get_values : Option (List ParameterValue) → List ParameterValue
get_values values = unwrap_or values []

-- The values of one binding: `resolve_variables` is unwrapped, so an undefined variable panics.
unfoldable pub binding_values :
    List Variable → Option (List ParameterValue) → Result Error (List ParameterValue)
binding_values variables none = ok []
binding_values variables (some values) = elim (resolve_variables values variables) [
  | ok vs ↦ ok vs
  | err _ ↦ err panicked
]

module _ (serde : Serde) (namespace instance_name : String) (variables : List Variable) where
  unfoldable pub load_bindings : List ScopeBinding → Result Error (List OamScope)
  unfolding binding_values
  load_bindings [] = ok []
  load_bindings (sc ∷ bindings) = do
    param ← binding_values variables sc.parameter_values
    scope ← load_scope_by_type serde namespace instance_name sc.scope_type param
    scopes ← load_bindings bindings
    ok (scope ∷ scopes)

  unfoldable pub load_scopes : ApplicationConfiguration → Result Error (List OamScope)
  unfolding load_bindings
  load_scopes spec = load_bindings (unwrap_or spec.scopes [])
