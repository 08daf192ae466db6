-- ===== src/TraitOps.antt =====
-- `TraitImplementation` and the dispatch of `OAMTrait` of src/schematic/traits.rs: what each trait
-- does in a phase, in the modules below as requests to the server.
pub mod Interface
pub mod IngressOps
pub mod AutoscalerOps
pub mod ScalerOps
pub mod VolumeOps
use rudr.Prelude.{String, Option}
use rudr.BTreeMap.{BTreeMap}
use rudr.Lifecycle.{Phase}
use rudr.Traits.{OamTrait, autoscaler, manual_scaler, ingress, volume_mounter, empty}
use rudr.Client.{Server, Action}
use rudr.TraitOps.Interface
use rudr.TraitOps.Interface.{TraitImplementation, empty_implementation}
use rudr.TraitOps.IngressOps.{ingress_implementation}
use rudr.TraitOps.AutoscalerOps.{autoscaler_implementation}
use rudr.TraitOps.ScalerOps.{manual_scaler_implementation}
use rudr.TraitOps.VolumeOps.{volume_mounter_implementation}

module _ (server : Server) (ns : String) where
  -- The implementation that the enumeration's methods dispatch to.
  unfoldable pub implementation : OamTrait → TraitImplementation
  implementation (autoscaler a) = autoscaler_implementation server ns a
  implementation (ingress i) = ingress_implementation server ns i
  implementation (manual_scaler m) = manual_scaler_implementation server ns m
  implementation (volume_mounter v) = volume_mounter_implementation server ns v
  implementation empty = empty_implementation

  unfoldable pub exec : Phase → OamTrait → Action (Unit {0})
  unfolding implementation
  exec phase self = Interface.exec (implementation self) phase

  unfoldable pub status : OamTrait → Action (Option (BTreeMap String))
  unfolding implementation
  status self = (implementation self).status
