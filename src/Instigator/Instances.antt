-- ===== src/Instigator/Instances.antt =====
-- Component instances: the objects that own what a component consists of.
use rudr.Prelude.{String, ◌<>◌, true, none, some, List, [], ◌∷◌, if◌then◌else◌}
use rudr.Cluster.{OwnerReference, ObjectMeta, has_reason, contains, oam_api_version}
use rudr.Configuration.{ComponentConfiguration}
use rudr.Lifecycle.{Phase}
use rudr.Client.{
  ComponentInstance, component_instance, component_instances, create, get, delete, Server, Error,
  kube, message, panicked, OwnerRefs, Action, request, pure, fail, ◌>>=◌, unwrap_or_else,
}
use rudr.Instigator.{combine_name}

abbrev pub instance_owner : String → String → OwnerReference
instance_owner name uid = record {
  api_version = oam_api_version;
  kind = "ComponentInstance";
  uid = uid;
  controller = some true;
  block_owner_deletion = some true;
  name = name;
}

-- What is created: an instance whose one owner is the application configuration.
abbrev pub new_instance : String → OwnerReference → ComponentInstance
new_instance name owner = record {
  name = name;
  owner_references =
      record {
        api_version = oam_api_version;
        kind = "ApplicationConfiguration";
        uid = owner.uid;
        controller = some true;
        block_owner_deletion = some true;
        name = owner.name;
      }
      ∷ [];
}

-- An instance that the server holds, by its name and identity.
abbrev pub owners_of_created : String → ObjectMeta → Action (List OwnerReference)
owners_of_created name res = elim res.uid [
  | none ↦ fail (message "UID was not set on component instance")
  | some uid ↦ pure (instance_owner name uid ∷ [])
]

abbrev pub owners_of_found : ObjectMeta → Action (List OwnerReference)
owners_of_found res = elim res.uid [
  | none ↦ fail panicked
  | some uid ↦ pure (instance_owner res.name uid ∷ [])
]

module _ (server : Server) (namespace : String) where
  -- Of an instance that exists already the existing one is read.
  unfoldable pub existing : String → Error → Action ObjectMeta
  existing name (kube e) =
      if has_reason "AlreadyExists" e
      then request server.read_object (get namespace component_instances name)
      else fail (kube e)
  existing name e = fail e

  unfoldable pub create_component_instance :
      String → String → OwnerReference → Action (List OwnerReference)
  unfolding existing combine_name
  create_component_instance component_name instance_name owner = do
    let name = combine_name component_name instance_name
    res ←
        unwrap_or_else
          (request server.read_object
            (create namespace component_instances (component_instance (new_instance name owner))))
          (existing name)
    owners_of_created name res

  unfoldable pub component_instance_owner_reference : String → String → Action (List OwnerReference)
  unfolding combine_name
  component_instance_owner_reference component_name instance_name = do
    res ←
        request server.read_object
          (get namespace component_instances (combine_name component_name instance_name))
    owners_of_found res

  -- An instance that is not found is deleted already.
  unfoldable pub ignore_missing : Error → Action (Unit {0})
  ignore_missing (kube e) = if contains "NotFound" e.text then pure tt else fail (kube e)
  ignore_missing e = fail e

  unfoldable pub delete_component_instance : String → String → Action (Unit {0})
  unfolding ignore_missing combine_name
  delete_component_instance component_name instance_name =
      unwrap_or_else
        (request server.accept
          (delete namespace component_instances (combine_name component_name instance_name)))
        ignore_missing

  -- `get_new_own_ref`: the owners for a component in a phase.
  unfoldable pub missing_instance :
      ComponentConfiguration → OwnerReference → Error → Action (List OwnerReference)
  missing_instance component owner_ref (kube e) =
      if contains "NotFound" e.text
      then create_component_instance component.component_name component.instance_name owner_ref
      else fail (message ("Modify on " <> (component.instance_name <> (": " <> e.text))))
  missing_instance component owner_ref e = fail e

  unfoldable pub get_new_own_ref :
      Phase → ComponentConfiguration → OwnerReference → Action OwnerRefs
  unfolding missing_instance
  get_new_own_ref Phase.add component owner_ref = do
    own ← create_component_instance component.component_name component.instance_name owner_ref
    pure (some own)
  get_new_own_ref Phase.modify component owner_ref = do
    own ←
        unwrap_or_else
          (component_instance_owner_reference component.component_name component.instance_name)
          (missing_instance component owner_ref)
    pure (some own)
  get_new_own_ref _ component owner_ref = pure none
