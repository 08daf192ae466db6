-- ===== src/TraitManager/Running.antt =====
-- `TraitManager::exec` and `TraitManager::status`: a phase of every trait, and their statuses.
use rudr.Prelude.{String, Option, none, some, List, [], ◌∷◌, unwrap_or}
use rudr.BTreeMap
use rudr.BTreeMap.{BTreeMap}
use rudr.Lifecycle.{Phase}
use rudr.Traits.{OamTrait}
use rudr.TraitOps
use rudr.Client.{Server, Action, pure, ◌>>=◌, ◌>>◌, unwrap_or_else}
use rudr.TraitManager.{TraitManager}

module _ (server : Server) (ns : String) where
  -- The error of a trait is logged and dropped.
  unfoldable pub exec_all : Phase → List OamTrait → Action (Unit {0})
  exec_all phase [] = pure tt
  exec_all phase (imp ∷ traits) =
      unwrap_or_else (TraitOps.exec server ns phase imp) (λ _. pure tt) >> exec_all phase traits

  unfoldable pub exec : TraitManager → Phase → Action (Unit {0})
  unfolding exec_all
  exec self phase = exec_all phase self.traits

  -- The entries of each trait's status are inserted in turn.
  unfoldable pub collect : BTreeMap String → List OamTrait → Action (BTreeMap String)
  collect all_status [] = pure all_status
  collect all_status (imp ∷ traits) = TraitOps.status server ns imp >>= λ status.
      collect (BTreeMap.extend (unwrap_or status []) all_status) traits

  abbrev none_unless_some : BTreeMap String → Option (BTreeMap String)
  none_unless_some [] = none
  none_unless_some (e ∷ m) = some (e ∷ m)

  unfoldable pub status : TraitManager → Action (Option (BTreeMap String))
  unfolding collect
  status self = collect [] self.traits >>= λ all_status. pure (none_unless_some all_status)
