-- ===== src/TraitManager.antt =====
-- src/trait_manager.rs: how the traits of a component are loaded from their bindings.
pub mod Loading
pub mod Running
pub mod Isolation
mod Tests
use rudr.Prelude.{
  String, ◌<>◌, ◌==◌, Option, none, some, List, [], ◌∷◌, Result, ok, err, ◌>>=◌, and_then,
  unwrap_or, if◌then◌else◌,
}
use rudr.Json.{Value, Serde}
use rudr.Parameter.{ParameterValue}
use rudr.Component.{Component}
use rudr.Configuration.{TraitBinding, ComponentConfiguration}
use rudr.Client.{Error, message}
use rudr.Traits.{
  OwnerRefs, Properties, OamTrait, autoscaler, manual_scaler, ingress, volume_mounter, empty,
  ingress_from_properties, autoscaler_from_properties, manual_scaler_from_properties,
  volume_mounter_from_properties,
}

pub record TraitManager : Type 0 where
  pub config_name : String
  pub instance_name : String
  pub component : ComponentConfiguration
  pub parent_params : List ParameterValue
  pub owner_ref : OwnerRefs
  pub workload_type : String
  pub component_schematic : Component
  pub traits : List OamTrait

module _ (serde : Serde) (self : TraitManager) where
  -- Absent properties are read as the text "", which is no object.
  unfoldable pub prop_map : TraitBinding → Properties
  prop_map binding = serde.as_object (unwrap_or binding.properties (Value.string ""))

  unfoldable pub load_trait : TraitBinding → Result Error OamTrait
  unfolding prop_map
  load_trait binding =
      let name = self.config_name in
      let inst = self.instance_name in
      let comp = self.component.component_name in
      let props = prop_map binding in
      let owner = self.owner_ref in
      if binding.name == "ingress"
      then ok (ingress (ingress_from_properties serde name inst comp props owner))
      else if binding.name == "volume-mounter"
      then ok (
          volume_mounter (
            volume_mounter_from_properties serde name inst comp props owner
              self.component_schematic))
      else if binding.name == "auto-scaler"
      then ok (autoscaler (autoscaler_from_properties serde name inst comp props owner))
      else if binding.name == "manual-scaler"
      then ok (
          manual_scaler
            (manual_scaler_from_properties serde name inst comp props owner self.workload_type))
      else if binding.name == "empty"
      then ok empty
      else err (message ("unknown trait " <> binding.name))

  unfoldable pub load_all : List TraitBinding → Result Error (List OamTrait)
  unfolding load_trait
  load_all [] = ok []
  load_all (t ∷ bindings) = do imp ← load_trait t; traits ← load_all bindings; ok (imp ∷ traits)

  -- The manager with its traits; on an error it keeps those it had.
  unfoldable pub load_traits : TraitManager × Result Error (Unit {0})
  unfolding load_all
  load_traits = elim (load_all (unwrap_or self.component.traits [])) [
    | ok traits ↦ (record self { traits = traits }, ok tt)
    | err e ↦ (self, err e)
  ]
