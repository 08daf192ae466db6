-- ===== src/HealthController/MarkingTests.antt =====
-- Examples of the mark of a component instance.
use rudr.Prelude.{
  Option, eq_refl, ◌∙◌, if◌then◌else◌, String, ◌≡◌, refl, ◌↔◌, true, none, some, List, [], ◌∷◌,
  ◌++◌, All, Result, ok,
}
use rudr.BTreeMap.{BTreeMap}
use rudr.KubeObjects.{KubeComponentInstance}
use rudr.Client.Example.{absent}
use rudr.Instigator.{combine_name}
use rudr.Client.{get, Server, Request, Error, patch, kube_component_instance, component_instances}
use rudr.Scopes.HealthOps.{info_of}
use rudr.Instigator.ExecutionTests.{one, platform}
use rudr.Instigator.Sync.{is_good_state, health_state, component_instance_set_status}
use rudr.HealthController.{get_health_from_component}
use rudr.HealthController.Probing.{instance_get}
use rudr.HealthController.Marking.{writes, IsUntouched, KeepsStatus, marked-probed}

abbrev unmarked : KubeComponentInstance
unmarked = record {
  metadata = record {
    name = "web-one";
    namespace = none;
    uid = some "9";
    resource_version = some "1";
    annotations = [];
  };
  status = none;
}

-- What a write of an instance makes of its status.
abbrev new_status : Request → Option String
new_status (patch _ _ _ (kube_component_instance new)) = new.status
new_status _ = none

abbrev status_after : String → Option String → List Request → Option String
status_after name status [] = status
status_after name status (r ∷ log) =
    status_after name (if writes name r then new_status r else status) log

abbrev asked_name : Request → String
asked_name (get _ _ name) = name
asked_name _ = ""

-- A cluster whose instances have the version of their last write and its status.
abbrev storing : Server
storing = record absent {
  accept = λ _ _. ok tt;
  read_instance = λ log r. ok (record unmarked { status = status_after (asked_name r) none log });
}

status_after-append :
    (name : String) (status : Option String) (xs ys : List Request)
    → status_after name status (xs ++ ys) ≡ status_after name (status_after name status xs) ys
status_after-append name status [] ys = refl
status_after-append name status (r ∷ xs) ys =
    status_after-append name (if writes name r then new_status r else status) xs ys

status_after-untouched :
    (name : String) (status : Option String) (rest : List Request)
    → IsUntouched name rest
    → status_after name status rest ≡ status
status_after-untouched name status [] h = refl
status_after-untouched name status (r ∷ rest) (other, h) =
    rw other (status_after-untouched name status rest h)

storing-KeepsStatus : KeepsStatus storing "default"
storing-KeepsStatus log rest name state res marked accepted h =
    let r = patch "default" component_instances name (kube_component_instance res) in
    let before = status_after name none log in
    let last : status_after name none (log ++ (r ∷ [])) ≡ some state =
      status_after-append name none log (r ∷ []) ∙ rw (eq_refl name) marked in
    (
      record unmarked { status = status_after name none ((log ++ (r ∷ [])) ++ rest) },
      refl,
      status_after-append name none (log ++ (r ∷ [])) rest
          ∙ (status_after-untouched name _ rest h ∙ last),
    )

abbrev states : BTreeMap String
states = ("deployment/one", "running") ∷ ("service/one", "created") ∷ []

abbrev run : Result Error (Unit {0}) × List Request
run = component_instance_set_status platform storing "default" "web" "one" (health_state states) []

ran : run ≡ (ok tt, run.1)
unfolding component_instance_set_status rudr.Client.◌>>=◌ rudr.Client.resume rudr.Client.request
ran = refl

-- In between, the instance of another component is marked.
abbrev others : List Request
others = patch "default" component_instances "api-one" (kube_component_instance unmarked) ∷ []

untouched : IsUntouched (combine_name one.component_name one.instance_name) others
unfolding combine_name
untouched = (refl, tt)

marked-probed_example :
    (get_health_from_component storing "default" (info_of one) (run.1 ++ others) ≡ (
      ok (health_state states),
      (run.1 ++ others) ++ (instance_get "default" (info_of one) ∷ []),
    ))
    × (health_state states ≡ "healthy" ↔ All (λ e. is_good_state e.1 ≡ true) states)
marked-probed_example =
    marked-probed platform storing "default" one states tt [] run.1 others storing-KeepsStatus ran
      untouched
