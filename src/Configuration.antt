-- ===== src/Configuration.antt =====
-- src/schematic/configuration.rs, the bindings of src/schematic/traits.rs, and the status of
-- src/schematic.rs.
use rudr.Prelude.{String, Option, List, none}
use rudr.BTreeMap.{BTreeMap}
use rudr.Cluster.{ObjectMeta}
use rudr.Json.{Value}
use rudr.Parameter.{ParameterValue}
use rudr.Variable.{Variable}

pub record TraitBinding : Type 0 where
  pub name : String
  pub parameter_values : Option (List ParameterValue)
  pub properties : Option Value

pub record ScopeBinding : Type 0 where
  pub name : String
  pub scope_type : String
  pub parameter_values : Option (List ParameterValue)

pub record ComponentConfiguration : Type 0 where
  pub component_name : String
  pub instance_name : String
  pub parameter_values : Option (List ParameterValue)
  pub traits : Option (List TraitBinding)
  pub application_scopes : Option (List String)

pub record ApplicationConfiguration : Type 0 where
  pub variables : Option (List Variable)
  pub scopes : Option (List ScopeBinding)
  pub components : Option (List ComponentConfiguration)

pub record OamStatus : Type 0 where
  pub phase : Option String
  pub components : Option (BTreeMap (BTreeMap String))

abbrev pub default_status : OamStatus
default_status = record { phase = none; components = none }

-- `OpResource` of src/instigator.rs: an application configuration as the API holds it.
pub record OpResource : Type 0 where
  pub api_version : Option String
  pub kind : Option String
  pub metadata : ObjectMeta
  pub spec : ApplicationConfiguration
  pub status : Option OamStatus
