-- ===== src/Instigator/Keeping.antt =====
-- The steps of handling a configuration that leave the requests before them in the log.
use rudr.Prelude.{
  ℕ, zero, suc, String, ◌≡◌, inl, inr, not, ◌||◌, Option, none, List, [], ◌∷◌, ◌++◌, Member,
  Result-cases, Bool-cases, Any-append_left,
}
use rudr.BTreeMap
use rudr.BTreeMap.{BTreeMap}
use rudr.Cluster.{has_reason, contains}
use rudr.Lifecycle.{Phase, is_delete}
use rudr.Traits.{OamTrait, autoscaler, manual_scaler, ingress, volume_mounter, empty}
use rudr.TraitOps
use rudr.TraitManager.Running
use rudr.Scopes
use rudr.Scopes.{OamScope, health, network}
use rudr.Configuration.{ComponentConfiguration, OpResource, OamStatus}
use rudr.KubeEvents.{push_event_message, make_event, EventHandler, EventType, Info}
use rudr.KubeObjects.{ObjectReference}
use rudr.Prelude.Int.{ℤ}
use rudr.Client.{
  Server, Request, Error, kube, message, panicked, patch, configuration, configurations,
}
use rudr.Client.Keeping.{
  IsKeptBy, pure-IsKeptBy, fail-IsKeptBy, from_result-IsKeptBy, request-IsKeptBy, >>=-IsKeptBy,
  >>-IsKeptBy, unwrap_or_else-IsKeptBy,
}
use rudr.Instigator.{RecordAnnotation}
use rudr.Instigator.Setting
use rudr.Instigator.Setting.{Platform, get_component_def, get_scope_instance, trait_manager}
use rudr.Instigator.Binding.{remove_all, unbind_names, unbind_component}
use rudr.Instigator.Instances.{delete_component_instance, ignore_missing}
use rudr.Instigator.StatusPatch
use rudr.Instigator.StatusPatch.{retry_patch_status}
use rudr.Instigator.Execution.{Progress, announce, delete_component, delete_components, conclude}

module _ (q : Request) (server : Server) where
  remove-IsKeptBy :
      (scope : OamScope) (c : ComponentConfiguration) → IsKeptBy q (Scopes.remove server scope c)
  unfolding Scopes.remove Scopes.HealthOps.remove Scopes.HealthOps.get_obj
      Scopes.HealthOps.patch_obj Scopes.NetworkOps.remove
  remove-IsKeptBy (health s) c =
      >>=-IsKeptBy q _ _ (request-IsKeptBy q _ _) (λ _. request-IsKeptBy q _ _)
  remove-IsKeptBy (network s) c = fail-IsKeptBy q _ _

  remove_all-IsKeptBy :
      (platform : Platform) (namespace : String) (c : ComponentConfiguration)
      (scopes : List OamScope)
      → IsKeptBy q (remove_all platform server namespace c scopes)
  unfolding remove_all
  remove_all-IsKeptBy platform namespace c [] = pure-IsKeptBy q tt
  remove_all-IsKeptBy platform namespace c (scope ∷ scopes) =
      >>-IsKeptBy q _ _ (remove-IsKeptBy scope c) (remove_all-IsKeptBy platform namespace c scopes)

  pub unbind_names-IsKeptBy :
      (platform : Platform) (namespace : String) (c : ComponentConfiguration) (names : List String)
      → IsKeptBy q (unbind_names platform server namespace c names)
  unfolding unbind_names get_scope_instance
  unbind_names-IsKeptBy platform namespace c [] = pure-IsKeptBy q tt
  unbind_names-IsKeptBy platform namespace c (sc ∷ names) =
      >>=-IsKeptBy q _ _
        (>>=-IsKeptBy q _ _ (request-IsKeptBy q _ _) (λ _. from_result-IsKeptBy q _))
        (λ scopes.
          >>=-IsKeptBy q _ _ (remove_all-IsKeptBy platform namespace c scopes)
            (λ _. unbind_names-IsKeptBy platform namespace c names))

  push-IsKeptBy :
      (now : List Request → ℤ) (self : EventHandler) (type_ : EventType) (info : Info)
      (involved : ObjectReference)
      → IsKeptBy q (push_event_message now server self type_ info involved)
  unfolding push_event_message
  push-IsKeptBy now self type_ info involved log h =
      elim (Result-cases (
        make_event (now log) self.namespace type_ info involved self.reporting_component
          self.reporting_instance)) [
            | inl (ev, made) ↦ rw (push_event_message, made) (request-IsKeptBy q _ _ log h)
            | inr (e, failed) ↦ rw (push_event_message, failed) (fail-IsKeptBy q _ e log h)
          ]

  pub announce-IsKeptBy :
      (platform : Platform) (namespace : String) (o : OpResource) (action : String)
      (c : ComponentConfiguration)
      → IsKeptBy q (announce platform server namespace o action c)
  unfolding announce
  announce-IsKeptBy platform namespace o action c =
      unwrap_or_else-IsKeptBy q _ _ (push-IsKeptBy _ _ _ _ _) (λ _. pure-IsKeptBy q tt)

  pre_delete-IsKeptBy :
      (namespace : String) (imp : OamTrait)
      → IsKeptBy q (TraitOps.exec server namespace Phase.pre_delete imp)
  unfolding TraitOps.exec TraitOps.implementation TraitOps.Interface.exec
      TraitOps.Interface.provided TraitOps.Interface.empty_implementation
      TraitOps.IngressOps.ingress_implementation TraitOps.AutoscalerOps.autoscaler_implementation
      TraitOps.VolumeOps.volume_mounter_implementation
      TraitOps.ScalerOps.manual_scaler_implementation
  pre_delete-IsKeptBy namespace (autoscaler a) = pure-IsKeptBy q tt
  pre_delete-IsKeptBy namespace (ingress i) = pure-IsKeptBy q tt
  pre_delete-IsKeptBy namespace (manual_scaler m) = pure-IsKeptBy q tt
  pre_delete-IsKeptBy namespace (volume_mounter v) = pure-IsKeptBy q tt
  pre_delete-IsKeptBy namespace empty = pure-IsKeptBy q tt

  exec_all-IsKeptBy :
      (namespace : String) (traits : List OamTrait)
      → IsKeptBy q (Running.exec_all server namespace Phase.pre_delete traits)
  unfolding Running.exec_all
  exec_all-IsKeptBy namespace [] = pure-IsKeptBy q tt
  exec_all-IsKeptBy namespace (imp ∷ traits) =
      >>-IsKeptBy q _ _
        (unwrap_or_else-IsKeptBy q _ _ (pre_delete-IsKeptBy namespace imp)
          (λ _. pure-IsKeptBy q tt))
        (exec_all-IsKeptBy namespace traits)

  definition_missing-IsKeptBy :
      (platform : Platform) (namespace name : String) (e : Error)
      → IsKeptBy q (Setting.definition_missing platform server namespace name e)
  unfolding Setting.definition_missing
  definition_missing-IsKeptBy platform namespace name (kube e) = fail-IsKeptBy q _ _
  definition_missing-IsKeptBy platform namespace name (message e) = fail-IsKeptBy q _ _
  definition_missing-IsKeptBy platform namespace name panicked = fail-IsKeptBy q _ _

  get_component_def-IsKeptBy :
      (platform : Platform) (namespace name : String)
      → IsKeptBy q (get_component_def platform server namespace name)
  unfolding get_component_def
  get_component_def-IsKeptBy platform namespace name =
      unwrap_or_else-IsKeptBy q _ _ (request-IsKeptBy q _ _)
        (definition_missing-IsKeptBy platform namespace name)

  pub ignore_missing-IsKeptBy :
      (namespace : String) (e : Error) → IsKeptBy q (ignore_missing server namespace e)
  unfolding ignore_missing
  ignore_missing-IsKeptBy namespace (kube e) log h =
      elim (Bool-cases (contains "NotFound" e.text)) [
        | inl gone ↦ rw (ignore_missing, gone) (pure-IsKeptBy q tt log h)
        | inr other ↦ rw (ignore_missing, other) (fail-IsKeptBy q _ _ log h)
      ]
  ignore_missing-IsKeptBy namespace (message e) log h = fail-IsKeptBy q _ _ log h
  ignore_missing-IsKeptBy namespace panicked log h = fail-IsKeptBy q _ _ log h

  delete_component_instance-IsKeptBy :
      (namespace c i : String) → IsKeptBy q (delete_component_instance server namespace c i)
  unfolding delete_component_instance
  delete_component_instance-IsKeptBy namespace c i =
      unwrap_or_else-IsKeptBy q _ _ (request-IsKeptBy q _ _) (ignore_missing-IsKeptBy namespace)

  retry-IsKeptBy :
      (namespace name : String) (status : Option OamStatus) (ann : Option (BTreeMap String))
      (fuel : ℕ) (o : OpResource)
      → IsKeptBy q (retry_patch_status server namespace name status ann fuel o)
  unfolding retry_patch_status
  retry-IsKeptBy namespace name status ann zero o log h = pure-IsKeptBy q none log h
  retry-IsKeptBy namespace name status ann (suc fuel) o log h =
      let new_event = StatusPatch.with_status status ann o in
      let asked = patch namespace configurations name (configuration new_event) in
      let patched : Member q (log ++ (asked ∷ [])) =
        Any-append_left (λ x. x ≡ q) log (asked ∷ []) h in
      elim (Result-cases (server.read_configuration log asked)) [
        | inl (a, done) ↦ rw (retry_patch_status, done) patched
        | inr (e, refused) ↦ elim (Bool-cases (has_reason "Conflict" e)) [
          | inr other ↦ rw (retry_patch_status, refused, other) patched
          | inl conflict ↦
              rw (retry_patch_status, refused, conflict)
                (>>=-IsKeptBy q _ _ (request-IsKeptBy q _ _)
                  (retry-IsKeptBy namespace name status ann fuel) _ patched)
        ]
      ]

  delete_component-IsKeptBy :
      (platform : Platform) (namespace : String) (o : OpResource) (c : ComponentConfiguration)
      → IsKeptBy q (delete_component platform server namespace o c)
  unfolding delete_component unbind_component Running.exec
  delete_component-IsKeptBy platform namespace o c =
      >>=-IsKeptBy q _ _ (get_component_def-IsKeptBy platform namespace c.component_name)
        (λ comp_def. >>=-IsKeptBy q _ _ (from_result-IsKeptBy q _) (λ manager.
          >>-IsKeptBy q _ _
            (>>-IsKeptBy q _ _
              (>>-IsKeptBy q _ _ (exec_all-IsKeptBy namespace manager.traits)
                (delete_component_instance-IsKeptBy namespace c.component_name c.instance_name))
              (unbind_names-IsKeptBy platform namespace c _))
            (announce-IsKeptBy platform namespace o "deleted" c)))

  pub delete_components-IsKeptBy :
      (platform : Platform) (namespace : String) (o : OpResource) (last : RecordAnnotation)
      → IsKeptBy q (delete_components platform server namespace o last)
  unfolding delete_components
  delete_components-IsKeptBy platform namespace o [] = pure-IsKeptBy q tt
  delete_components-IsKeptBy platform namespace o ((k, r) ∷ last) =
      >>-IsKeptBy q _ _ (delete_component-IsKeptBy platform namespace o r.config)
        (delete_components-IsKeptBy platform namespace o last)

  pub conclude-IsKeptBy :
      (platform : Platform) (namespace : String) (fuel : ℕ) (o : OpResource) (s : Progress)
      → IsKeptBy q (conclude platform server namespace fuel o s)
  unfolding conclude
  conclude-IsKeptBy platform namespace fuel o s log h =
      let idle =
        not (s.component_updated || not (BTreeMap.is_empty s.last_components))
        || is_delete s.phase in
      elim (Bool-cases idle) [
        | inl over ↦ rw (conclude, over) (pure-IsKeptBy q _ log h)
        | inr work ↦
            rw (conclude, work)
              (>>=-IsKeptBy q _ _ (from_result-IsKeptBy q _)
                (λ text. retry-IsKeptBy namespace o.metadata.name _ _ fuel o) log h)
      ]
