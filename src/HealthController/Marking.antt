-- ===== src/HealthController/Marking.antt =====
-- What `Instigator::sync_status` of src/instigator.rs marks a component instance with, and what the
-- health controller reads of it.
use rudr.Prelude.{
  Bool, ◌==◌, false, Result-cases, subst, String, ◌≡◌, refl, ap, sym, ◌∙◌, ◌↔◌, inl, inr, true,
  some, List, [], ◌∷◌, ◌++◌, ok, All, Bool-cases,
}
use rudr.BTreeMap.{BTreeMap}
use rudr.Configuration.{ComponentConfiguration}
use rudr.KubeObjects.{KubeComponentInstance}
use rudr.Client.{
  create, replace, delete, component_instance, Server, Request, request, pure, resume, ◌>>=◌, get,
  patch, component_instances, kube_component_instance, unwrap_or_else, handle,
}
use rudr.Client.Laws.{>>=-ok}
use rudr.Scopes.HealthOps.{info_of}
use rudr.Instigator.{combine_name}
use rudr.Instigator.Sync.{is_good_state, health_state, component_instance_set_status}
use rudr.HealthController.{get_health_from_component}
use rudr.HealthController.Probing.{instance_get, unhealthy-ne-healthy}
use rudr.Instigator.Setting.{Platform}

-- The request writes a component instance of a name, in some namespace.
abbrev pub writes : String → Request → Bool
writes name (create _ component_instances (component_instance i)) = i.name == name
writes name (patch _ component_instances n _) = n == name
writes name (replace _ component_instances n _) = n == name
writes name (delete _ component_instances n) = n == name
writes name _ = false

abbrev pub IsUntouched : String → List Request → Type 0
IsUntouched name rest = All (λ r. writes name r ≡ false) rest

-- Once a patch of an instance is accepted, the instance is there and has the status of the patch,
-- whatever else the server makes of it, as long as no later request writes it.
abbrev pub KeepsStatus : Server → String → Type 0
KeepsStatus server namespace =
    (log rest : List Request) (name state : String) (res : KubeComponentInstance)
    → res.status ≡ some state
    → server.accept log (patch namespace component_instances name (kube_component_instance res))
      ≡ ok tt
    → IsUntouched name rest
    → (held : KubeComponentInstance) × (server.read_instance
          ((log ++ (patch namespace component_instances name (kube_component_instance res) ∷ []))
            ++ rest)
          (get namespace component_instances name)
        ≡ ok held)
      × (held.status ≡ some state)

health_state_iff :
    (status : BTreeMap String)
    → health_state status ≡ "healthy" ↔ All (λ e. is_good_state e.1 ≡ true) status
unfolding health_state
health_state_iff [] = (λ _. tt, λ _. refl)
health_state_iff ((k, v) ∷ status) = elim (Bool-cases (is_good_state v)) [
  | inl good ↦
      let (to, from) = health_state_iff status in
      (λ h. (good, to (rw good at h)), λ (_, rest). rw good (from rest))
  | inr bad ↦
      (λ h. absurd (unhealthy-ne-healthy (rw bad at h)), λ (good, _). absurd (cc (sym bad ∙ good)))
]

-- The request that marks an instance, the last of the log.
abbrev mark : String → ComponentConfiguration → KubeComponentInstance → Request
mark namespace c res =
    patch namespace component_instances (combine_name c.component_name c.instance_name)
      (kube_component_instance res)

marked_log :
    (platform : Platform) (server : Server) (namespace : String) (c : ComponentConfiguration)
    (health : String) (u : Unit {0}) (log l' : List Request)
    → component_instance_set_status platform server namespace c.component_name c.instance_name
        health log
      ≡ (ok u, l')
    → (res : KubeComponentInstance) × (l : List Request) × (res.status ≡ some health)
      × (server.accept l (mark namespace c res) ≡ ok tt)
      × (l ++ (mark namespace c res ∷ []) ≡ l')
unfolding component_instance_set_status request
marked_log platform server namespace c health u log l' h =
    let (res, l, _, patched) = >>=-ok _ _ log l' u h in
    let new : KubeComponentInstance = record res { status = some health } in
    (
      new,
      l,
      refl,
      elim (Result-cases (server.accept l (mark namespace c new))) [
        | inl (a, accepted) ↦ accepted
        | inr (e, refused) ↦ absurd (cc (ap (λ p. p.0) (rw refused at patched)))
      ],
      ap (λ p. p.1) patched,
    )

-- The two binaries agree on a component's health: once the instigator has marked the instance of a
-- component after the states of its workload, the health controller reads that mark of the
-- component that a health scope lists, after any requests that do not write the instance and on a
-- server that keeps the status of what it accepts; and the mark is "healthy" exactly where each of
-- those states is running, created or succeeded.
pub marked-probed :
    (platform : Platform) (server : Server) (namespace : String) (c : ComponentConfiguration)
    (status : BTreeMap String) (u : Unit {0}) (log l' rest : List Request)
    → KeepsStatus server namespace
    → component_instance_set_status platform server namespace c.component_name c.instance_name
        (health_state status)
        log
      ≡ (ok u, l')
    → IsUntouched (combine_name c.component_name c.instance_name) rest
    → (get_health_from_component server namespace (info_of c) (l' ++ rest)
        ≡ (ok (health_state status), (l' ++ rest) ++ (instance_get namespace (info_of c) ∷ [])))
      × (health_state status ≡ "healthy" ↔ All (λ e. is_good_state e.1 ≡ true) status)
unfolding get_health_from_component unwrap_or_else handle request pure ◌>>=◌ resume
marked-probed platform server ns c status u log l' rest keeps h untouched =
    let (res, l, marked, accepted, made) =
      marked_log platform server ns c (health_state status) u log l' h in
    let name = combine_name c.component_name c.instance_name in
    let (held, read, kept) =
      keeps l rest name (health_state status) res marked accepted untouched in
    let found : server.read_instance (l' ++ rest) (get ns component_instances name) ≡ ok held =
      subst (λ k. server.read_instance (k ++ rest) (get ns component_instances name) ≡ ok held) made
        read in
    (rw (get_health_from_component, found, kept) refl, health_state_iff status)
