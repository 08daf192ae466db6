-- ===== src/Instigator/Deletion.antt =====
-- That a component that the configuration no longer has is deleted.
use rudr.Prelude.{
  ℕ, String, ◌≡◌, ◌==◌, ap, subst, ◌∙◌, inl, inr, Option, none, some, List, [], ◌∷◌, ok, Member,
  Bool-cases, unwrap_or, arith,
}
use rudr.BTreeMap
use rudr.BTreeMap.{BTreeMap}
use rudr.Cluster.{OwnerReference}
use rudr.Lifecycle.{Phase}
use rudr.Configuration.{ComponentConfiguration, OpResource}
use rudr.Client.{
  Server, Request, Action, request, ◌>>◌, delete, component_instances, from_result, unwrap_or_else,
}
use rudr.Client.Laws.{>>=-ok}
use rudr.Client.Keeping.{IsKeptBy, handle-IsKeptBy, request_in_log}
use rudr.Instigator.{combine_name, ComponentRecord, RecordAnnotation, get_record_annotation}
use rudr.Instigator.Setting.{Platform}
use rudr.Instigator.Binding.{unbind_component}
use rudr.Instigator.Instances.{delete_component_instance, ignore_missing}
use rudr.Instigator.Execution.{
  announce, delete_component, delete_components, conclude, exec_configuration, exec,
  record_annotation,
}
use rudr.Instigator.Records.{latest, exec_components-records}
use rudr.Instigator.Keeping.{
  unbind_names-IsKeptBy, announce-IsKeptBy, ignore_missing-IsKeptBy, delete_components-IsKeptBy,
  conclude-IsKeptBy,
}

-- The deletion of a component's instance.
abbrev pub deletion : String → ComponentConfiguration → Request
unfolding combine_name
deletion namespace c =
    delete namespace component_instances (combine_name c.component_name c.instance_name)

-- An action that succeeds has made the request.
abbrev IsAskedBy : {A : Type 0} → Request → Action A → Type 0
IsAskedBy {A} q m = (log l' : List Request) (a : A) → m log ≡ (ok a, l') → Member q l'

-- A chain of two that succeeds, as the two.
split_chain :
    {B : Type 0} (m : Action (Unit {0})) (k : Action B) (log l' : List Request) (b : B)
    → (m >> k) log ≡ (ok b, l')
    → (l : List Request) × (m log ≡ (ok tt, l)) × (k l ≡ (ok b, l'))
unfolding ◌>>◌
split_chain m k log l' b h =
    let (a, l, first, rest) = >>=-ok m (λ _. k) log l' b h in (l, first, rest)

still_there :
    {B : Type 0} (q : Request) (m : Action B) (log l' : List Request) (b : B)
    → IsKeptBy q m
    → m log ≡ (ok b, l')
    → Member q log
    → Member q l'
still_there q m log l' b kept ran h = subst (λ p. Member q p.1) ran (kept log h)

module _ (platform : Platform) (server : Server) (namespace : String) (o : OpResource) where
  instance-IsAskedBy :
      (c : ComponentConfiguration)
      → IsAskedBy
          (deletion namespace c)
          (delete_component_instance server namespace c.component_name c.instance_name)
  unfolding delete_component_instance unwrap_or_else
  instance-IsAskedBy c log l' a h =
      let q = deletion namespace c in
      subst (λ p. Member q p.1) h
        (handle-IsKeptBy q (ignore_missing server namespace) (request server.accept q log)
          (ignore_missing-IsKeptBy q server namespace) (request_in_log server.accept q log))

  delete_component-IsAskedBy :
      (c : ComponentConfiguration)
      → IsAskedBy (deletion namespace c) (delete_component platform server namespace o c)
  unfolding delete_component unbind_component
  delete_component-IsAskedBy c log l' u h =
      let q = deletion namespace c in
      let (comp_def, la, _, rest) = >>=-ok _ _ log l' u h in
      let (manager, lb, _, steps) = >>=-ok _ _ la l' u rest in
      let (le, to_unbound, announced) = split_chain _ _ lb l' u steps in
      let (ld, to_deleted, unbound) = split_chain _ _ lb le tt to_unbound in
      let (lc, _, deleted) = split_chain _ _ lb ld tt to_deleted in
      still_there q (announce platform server namespace o "deleted" c) le l' u
        (announce-IsKeptBy q server platform namespace o "deleted" c) announced
        (still_there q (unbind_component platform server namespace c) ld le tt
          (unbind_names-IsKeptBy q server platform namespace c (unwrap_or c.application_scopes []))
          unbound (instance-IsAskedBy c lc ld tt deleted))

  delete_components-IsAskedBy :
      (last : RecordAnnotation) (k : String) (r : ComponentRecord)
      → BTreeMap.get k last ≡ some r
      → IsAskedBy (deletion namespace r.config) (delete_components platform server namespace o last)
  unfolding delete_components BTreeMap.get
  delete_components-IsAskedBy [] k r found log l' u h = absurd (cc found)
  delete_components-IsAskedBy ((j, s) ∷ last) k r found log l' u h =
      let (l, first, rest) = split_chain _ _ log l' u h in
      elim (Bool-cases (j == k)) [
        | inl here ↦
            let same : s ≡ r = ground (arith, rw here at found) in
            still_there (deletion namespace r.config)
              (delete_components platform server namespace o last) l l' u
              (delete_components-IsKeptBy _ server platform namespace o last) rest
              (subst (λ x. Member (deletion namespace x.config) l) same
                (delete_component-IsAskedBy s.config log l tt first))
        | inr other ↦ delete_components-IsAskedBy last k r (rw other at found) l l' u rest
      ]

  exec_configuration-IsAskedBy :
      (fuel : ℕ) (owner : OwnerReference) (phase : Phase) (last : RecordAnnotation) (k : String)
      (r : ComponentRecord)
      → get_record_annotation platform.parse_records
          (BTreeMap.get record_annotation o.metadata.annotations)
        ≡ ok last
      → latest k (unwrap_or o.spec.components []) ≡ none
      → BTreeMap.get k last ≡ some r
      → IsAskedBy
          (deletion namespace r.config)
          (exec_configuration platform server namespace fuel o owner phase)
  unfolding exec_configuration from_result
  exec_configuration-IsAskedBy fuel owner phase last k r records gone found log l' a h =
      let (read, l, e, rest) = >>=-ok _ _ log l' a h in
      let same : read ≡ last = ground (arith, records, ap (λ p. p.0) e) in
      let (t, la, ran, ended) = >>=-ok _ _ l l' a rest in
      let (lb, deleted, concluded) = split_chain _ _ la l' a ended in
      let (left, _) =
        exec_components-records platform server namespace o owner phase read
          (unwrap_or o.spec.components []) t l la k ran in
      let there : BTreeMap.get k t.last_components ≡ some r =
        (left gone).0 ∙ (ap (BTreeMap.get k) same ∙ found) in
      still_there (deletion namespace r.config) (conclude platform server namespace fuel o t) lb l'
        a (conclude-IsKeptBy _ server platform namespace fuel o t) concluded
        (delete_components-IsAskedBy t.last_components k r there la lb tt deleted)

-- A component that was recorded and that the configuration no longer has does not outlive a handling
-- that succeeds: where a configuration without scopes records a component under an instance name
-- that none of its components has, and it is handled in any phase with success, then the deletion of
-- that component's instance, the owner of its objects, was requested.
pub exec_deletes :
    (platform : Platform) (server : Server) (namespace : String) (fuel : ℕ) (o : OpResource)
    (phase : Phase) (last : RecordAnnotation) (k : String) (r : ComponentRecord)
    (a : Option (Unit {0})) (log l' : List Request)
    → o.spec.scopes ≡ none
    → get_record_annotation platform.parse_records
        (BTreeMap.get record_annotation o.metadata.annotations)
      ≡ ok last
    → latest k (unwrap_or o.spec.components []) ≡ none
    → BTreeMap.get k last ≡ some r
    → exec platform server namespace fuel o phase log ≡ (ok a, l')
    → Member (deletion namespace r.config) l'
unfolding exec
exec_deletes platform server ns fuel o phase last k r a log l' no_scopes records gone found h =
    let (owner, l, _, rest) = >>=-ok _ _ log l' a h in
    exec_configuration-IsAskedBy platform server ns o fuel owner phase last k r records gone found l
      l' a (rw no_scopes at rest)
