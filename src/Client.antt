-- ===== src/Client.antt =====
-- The Kubernetes API client of the `kube` crate, as the workload types use it: the requests with
-- their bodies, and a server that answers each from the requests before it. The server is a
-- parameter; the crate builds every request and encodes every body without failing.
-- An action is a state passing function over the log of requests. A panic is the error `panicked`.
pub mod Laws
pub mod Keeping
pub mod Example
use rudr.Prelude.{String, ◌<>◌, Option, none, some, List, [], ◌∷◌, ◌++◌, Result, ok, err}
use rudr.Prelude.Int.{ℤ}
use rudr.BTreeMap.{BTreeMap}
use rudr.Cluster.{OwnerReference, ObjectMeta, KubeError}
use rudr.Json.{Value}
use rudr.Configuration.{OpResource}
use rudr.HealthScope.{KubeOwner, HealthScopeObject}
use rudr.Component.Kube.{PodSpec, ServicePort}
use rudr.KubeObjects.{
  ScalableObject, DeployedFunction, KubeComponent, KubeComponentInstance, KubeEvent,
}
use rudr.Traits.IngressObject.{ExtIngress}
use rudr.Traits.HpaObject.{HorizontalPodAutoscaler}
use rudr.Traits.Claim.{PersistentVolumeClaim}

abbrev pub Labels : Type 0
Labels = BTreeMap String

abbrev pub OwnerRefs : Type 0
OwnerRefs = Option (List OwnerReference)

-- The fields of the API's objects that the sources set.
pub record Metadata : Type 0 where
  pub name : String
  pub labels : Option Labels
  pub annotations : Option Labels
  pub owner_references : OwnerRefs

pub record PodTemplate : Type 0 where
  pub metadata : Metadata
  pub spec : PodSpec

pub record Deployment : Type 0 where
  pub metadata : Metadata
  pub replicas : Option ℤ
  pub match_labels : Labels
  pub template : PodTemplate

pub record StatefulSet : Type 0 where
  pub metadata : Metadata
  pub match_labels : Labels
  pub template : PodTemplate

pub record Job : Type 0 where
  pub metadata : Metadata
  pub backoff_limit : ℤ
  pub parallelism : Option ℤ
  pub template : PodTemplate

pub record ServiceSpec : Type 0 where
  pub selector : Labels
  pub ports : List ServicePort

pub record Service : Type 0 where
  pub metadata : Metadata
  pub spec : ServiceSpec

pub record ConfigMap : Type 0 where
  pub metadata : Metadata
  pub data_ : BTreeMap String

-- `KubeFaaS`: the fields that the source sets.
pub record FunctionObject : Type 0 where
  pub name : String
  pub owner_references : List KubeOwner
  pub image : String
  pub handler : Option String
  pub environment : Option (BTreeMap String)

-- The object of a workload type that the program does not know.
pub record CustomObject : Type 0 where
  pub api_version : String
  pub kind : String
  pub name : String
  pub owner_references : OwnerRefs
  pub spec : Option Value

pub record ComponentInstance : Type 0 where
  pub name : String
  pub owner_references : List OwnerReference

-- The body of a request.
pub data Body : Type 0 where
  config_map : ConfigMap → Body
  deployment : Deployment → Body
  stateful_set : StatefulSet → Body
  job : Job → Body
  service : Service → Body
  service_spec : ServiceSpec → Body
  health_scope : HealthScopeObject → Body
  function : FunctionObject → Body
  custom_object : CustomObject → Body
  component_instance : ComponentInstance → Body
  configuration : OpResource → Body
  ingress : ExtIngress → Body
  horizontal_pod_autoscaler : HorizontalPodAutoscaler → Body
  persistent_volume_claim : PersistentVolumeClaim → Body
  scalable : ScalableObject → Body
  deployed_function : DeployedFunction → Body
  kube_component_instance : KubeComponentInstance → Body
  event : KubeEvent → Body

-- `custom` is a resource of a group and a version, by its plural.
pub data Resource : Type 0 where
  config_maps deployments stateful_sets jobs services health_scopes functions component_instances
        configurations components ingresses horizontal_pod_autoscalers persistent_volume_claims
        events custom_resource_definitions :
      Resource
  custom : String → String → String → Resource

-- The namespace, the resource, and the name of the object where the path holds it.
pub data Request : Type 0 where
  create : String → Resource → Body → Request
  patch : String → Resource → String → Body → Request
  replace : String → Resource → String → Body → Request
  delete : String → Resource → String → Request
  get : String → Resource → String → Request
  get_status : String → Resource → String → Request
  list : String → Resource → Request

pub record DeploymentStatus : Type 0 where
  pub replicas : Option ℤ
  pub available_replicas : Option ℤ
  pub unavailable_replicas : Option ℤ

pub record StatefulSetStatus : Type 0 where
  pub replicas : ℤ
  pub ready_replicas : Option ℤ

pub record JobStatus : Type 0 where
  pub active : Option ℤ
  pub failed : Option ℤ

-- The answers to requests: for an object's status what it holds, if it has one, and for a component
-- instance that is read or created its metadata. Of an ingress's status the load balancer is read, of
-- an autoscaler's its current replicas, of a claim's its phase.
pub record Server : Type 0 where
  pub accept : List Request → Request → Result KubeError (Unit {0})
  pub read_deployment : List Request → Request → Result KubeError (Option DeploymentStatus)
  pub read_stateful_set : List Request → Request → Result KubeError (Option StatefulSetStatus)
  pub read_job : List Request → Request → Result KubeError (Option JobStatus)
  pub read_health_scope : List Request → Request → Result KubeError HealthScopeObject
  pub read_object : List Request → Request → Result KubeError ObjectMeta
  pub read_configuration : List Request → Request → Result KubeError OpResource
  pub read_service : List Request → Request → Result KubeError (Option (Unit {0}))
  pub read_ingress : List Request → Request → Result KubeError (Option (Option (Unit {0})))
  pub read_autoscaler : List Request → Request → Result KubeError (Option ℤ)
  pub read_claim : List Request → Request → Result KubeError (Option (Option String))
  pub read_scalable : List Request → Request → Result KubeError ScalableObject
  pub read_function : List Request → Request → Result KubeError DeployedFunction
  pub read_component : List Request → Request → Result KubeError KubeComponent
  pub list_configurations : List Request → Request → Result KubeError (List OpResource)
  pub list_health_scopes : List Request → Request → Result KubeError (List HealthScopeObject)
  pub read_instance : List Request → Request → Result KubeError KubeComponentInstance

pub data Error : Type 0 where
  kube : KubeError → Error
  message : String → Error
  panicked : Error

-- An action yields its result and the log of the requests made so far.
abbrev pub Action : Type 0 → Type 0
Action A = List Request → Result Error A × List Request

abbrev pub lift : {A : Type 0} → Result KubeError A → Result Error A
lift (ok a) = ok a
lift (err e) = err (kube e)

unfoldable pub request :
    {A : Type 0} → (List Request → Request → Result KubeError A) → Request → Action A
request answer r log = (lift (answer log r), log ++ (r ∷ []))

unfoldable pub pure : {A : Type 0} → A → Action A
pure a log = (ok a, log)

unfoldable pub fail : {A : Type 0} → Error → Action A
fail e log = (err e, log)

unfoldable pub resume :
    {A B : Type 0} → (A → Action B) → Result Error A × List Request → Result Error B × List Request
resume f (ok a, log) = f a log
resume f (err e, log) = (err e, log)

infixl 5 ◌>>=◌ ◌>>◌
unfoldable pub ◌>>=◌ : {A B : Type 0} → Action A → (A → Action B) → Action B
unfolding resume
(m >>= f) log = resume f (m log)

unfoldable pub ◌>>◌ : {B : Type 0} → Action (Unit {0}) → Action B → Action B
unfolding ◌>>=◌
m >> k = m >>= λ _. k

-- `unwrap_or_else`: an error is handled, a panic is not.
unfoldable pub handle :
    {A : Type 0}
    → (Error → Action A)
    → Result Error A × List Request
    → Result Error A × List Request
handle f (ok a, log) = (ok a, log)
handle f (err panicked, log) = (err panicked, log)
handle f (err e, log) = f e log

unfoldable pub unwrap_or_else : {A : Type 0} → Action A → (Error → Action A) → Action A
unfolding handle
unwrap_or_else m f log = handle f (m log)

-- `if let Ok(a) = m`: a result or nothing; a panic is not caught.
unfoldable pub attempt : {A : Type 0} → Action A → Action (Option A)
unfolding unwrap_or_else ◌>>=◌
attempt m = unwrap_or_else (m >>= λ a. pure (some a)) (λ _. pure none)

-- A result as an action that requests nothing, and one whose error is given.
unfoldable pub from_result : {A : Type 0} → Result Error A → Action A
from_result r log = (r, log)

unfoldable pub expect : {E A : Type 0} → Error → Result E A → Action A
expect e (ok a) log = (ok a, log)
expect e (err _) log = (err e, log)

-- `unwrap` of an option.
unfoldable pub unwrap : {A : Type 0} → Option A → Action A
unwrap (some a) log = (ok a, log)
unwrap none log = (err panicked, log)
