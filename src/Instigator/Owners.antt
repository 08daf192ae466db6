-- ===== src/Instigator/Owners.antt =====
-- The owners that a component gets.
use rudr.Prelude.{
  String, ◌≡◌, refl, ap, sym, ◌∙◌, subst, ◌⊎◌, inl, inr, true, none, some, List, [], ◌∷◌, ◌++◌, ok,
  err, Option-cases, Bool-cases, Result-cases, arith,
}
use rudr.Cluster.{OwnerReference, ObjectMeta, KubeError, contains, has_reason, oam_api_version}
use rudr.Configuration.{ComponentConfiguration}
use rudr.Lifecycle.{Phase}
use rudr.Client.{
  Server, Request, Error, kube, message, panicked, OwnerRefs, request, pure, fail, unwrap_or_else,
  ◌>>=◌, resume, handle, create, get, component_instances, component_instance,
}
use rudr.Client.Laws.{>>=-ok, unwrap_or_else-ok}
use rudr.Instigator.{combine_name}
use rudr.Instigator.Instances.{
  new_instance, owners_of_created, owners_of_found, existing, create_component_instance,
  component_instance_owner_reference, missing_instance, get_new_own_ref,
}

-- The owner is the instance that the server answered with, under a name.
abbrev pub IsOwnedBy : String → ObjectMeta → List OwnerReference → Type 0
IsOwnedBy name res own =
    (uid : String) × (res.uid ≡ some uid)
    × (own
        ≡ record {
          api_version = oam_api_version;
          kind = "ComponentInstance";
          uid = uid;
          controller = some true;
          block_owner_deletion = some true;
          name = name;
        }
          ∷ [])

owners_of_created_lem :
    (name : String) (res : ObjectMeta) (l l' : List Request) (own : List OwnerReference)
    → owners_of_created name res l ≡ (ok own, l')
    → IsOwnedBy name res own × (l ≡ l')
unfolding pure fail
owners_of_created_lem name res l l' own h = elim (Option-cases res.uid) [
  | inl absent ↦ ground (arith, absent, h)
  | inr (uid, found) ↦ ((uid, found, ground (arith, found, h)), ground (arith, found, h))
]

owners_of_found_lem :
    (res : ObjectMeta) (l l' : List Request) (own : List OwnerReference)
    → owners_of_found res l ≡ (ok own, l')
    → IsOwnedBy res.name res own × (l ≡ l')
unfolding pure fail
owners_of_found_lem res l l' own h = elim (Option-cases res.uid) [
  | inl absent ↦ ground (arith, absent, h)
  | inr (uid, found) ↦ ((uid, found, ground (arith, found, h)), ground (arith, found, h))
]

module _ (server : Server) (namespace : String) (component : ComponentConfiguration)
    (owner : OwnerReference) where
  abbrev pub instance_name_of : String
  unfolding combine_name
  instance_name_of = combine_name component.component_name component.instance_name

  abbrev pub creation : Request
  creation =
      create namespace component_instances
        (component_instance (new_instance instance_name_of owner))

  abbrev pub reading : Request
  reading = get namespace component_instances instance_name_of

  -- The instance is created, or exists already and is read.
  abbrev pub IsMade : List Request → ObjectMeta → List Request → Type 0
  IsMade log res l' =
      ((server.read_object log creation ≡ ok res) × (l' ≡ log ++ (creation ∷ [])))
      ⊎ ((e : KubeError) × (server.read_object log creation ≡ err e)
          × (has_reason "AlreadyExists" e ≡ true)
          × (server.read_object (log ++ (creation ∷ [])) reading ≡ ok res)
          × (l' ≡ (log ++ (creation ∷ [])) ++ (reading ∷ [])))

  -- The owners in a phase, with the requests made for them.
  abbrev pub IsOwnersIn : Phase → OwnerRefs → List Request → List Request → Type 0
  IsOwnersIn Phase.add refs log l' =
      (res : ObjectMeta) × (own : List OwnerReference) × (refs ≡ some own)
      × IsMade log res l'
      × IsOwnedBy instance_name_of res own
  IsOwnersIn Phase.modify refs log l' =
      (res : ObjectMeta) × (own : List OwnerReference) × (refs ≡ some own)
      × (((server.read_object log reading ≡ ok res)
            × (l' ≡ log ++ (reading ∷ []))
            × IsOwnedBy res.name res own)
          ⊎ ((e : KubeError) × (server.read_object log reading ≡ err e)
              × (contains "NotFound" e.text ≡ true)
              × IsMade (log ++ (reading ∷ [])) res l'
              × IsOwnedBy instance_name_of res own))
  IsOwnersIn _ refs log l' = (refs ≡ none) × (l' ≡ log)

  creation_answer :
      (log l : List Request) (res : ObjectMeta)
      → unwrap_or_else
          (request server.read_object creation)
          (existing server namespace instance_name_of)
          log
        ≡ (ok res, l)
      → IsMade log res l
  unfolding unwrap_or_else handle request existing fail
  creation_answer log l res h = elim (Result-cases (server.read_object log creation)) [
    | inl (made, answered) ↦
        let e = rw (unwrap_or_else, answered) at h in
        inl (answered ∙ ground (arith, e), ground (arith, e))
    | inr (x, refused) ↦ elim (Bool-cases (has_reason "AlreadyExists" x)) [
      | inr other ↦ absurd (cc (ap (λ p. p.0) (rw (unwrap_or_else, refused, existing, other) at h)))
      | inl exists ↦ elim (Result-cases (server.read_object (log ++ (creation ∷ [])) reading)) [
        | inr (y, unread) ↦ absurd (
            cc (
              ap (λ p. p.0) (rw (unwrap_or_else, refused, existing, exists, request, unread) at h)))
        | inl (found, answered) ↦
            let e = rw (unwrap_or_else, refused, existing, exists, request, answered) at h in
            inr (x, refused, exists, answered ∙ ground (arith, e), ground (arith, e))
      ]
    ]
  ]

  create_component_instance_lem :
      (log l' : List Request) (own : List OwnerReference)
      → create_component_instance server namespace component.component_name component.instance_name
          owner log
        ≡ (ok own, l')
      → (res : ObjectMeta) × IsMade log res l' × IsOwnedBy instance_name_of res own
  unfolding create_component_instance
  create_component_instance_lem log l' own h =
      let (res, l, made, built) = >>=-ok _ (owners_of_created instance_name_of) log l' own h in
      let (owned, same) = owners_of_created_lem instance_name_of res l l' own built in
      (res, subst (IsMade log res) same (creation_answer log l res made), owned)

  found_lem :
      (log l' : List Request) (own : List OwnerReference)
      → component_instance_owner_reference server namespace component.component_name
          component.instance_name log
        ≡ (ok own, l')
      → (res : ObjectMeta) × (server.read_object log reading ≡ ok res)
        × (l' ≡ log ++ (reading ∷ []))
        × IsOwnedBy res.name res own
  unfolding component_instance_owner_reference request
  found_lem log l' own h =
      let (res, l, answered, built) = >>=-ok _ owners_of_found log l' own h in
      let (owned, same) = owners_of_found_lem res l l' own built in
      elim (Result-cases (server.read_object log reading)) [
        | inl (found, e) ↦
            let there = rw e at answered in
            (res, e ∙ ground (arith, there), sym same ∙ ground (arith, there), owned)
        | inr (x, e) ↦ absurd (cc (ap (λ p. p.0) (rw e at answered)))
      ]

  not_found_lem :
      (log k : List Request) (x : KubeError)
      → component_instance_owner_reference server namespace component.component_name
          component.instance_name log
        ≡ (err (kube x), k)
      → (server.read_object log reading ≡ err x) × (k ≡ log ++ (reading ∷ []))
  unfolding component_instance_owner_reference request ◌>>=◌ resume pure fail
  not_found_lem log k x h = elim (Result-cases (server.read_object log reading)) [
    | inr (y, e) ↦
        let there = rw (component_instance_owner_reference, e) at h in
        (e ∙ ground (arith, there), ground (arith, there))
    | inl (found, e) ↦ elim (Option-cases found.uid) [
      | inl absent ↦
          absurd (cc (ap (λ p. p.0) (rw (component_instance_owner_reference, e, absent) at h)))
      | inr (uid, there) ↦
          absurd (cc (ap (λ p. p.0) (rw (component_instance_owner_reference, e, there) at h)))
    ]
  ]

  missing_instance_lem :
      (x : Error) (k l' : List Request) (own : List OwnerReference)
      → missing_instance server namespace component owner x k ≡ (ok own, l')
      → (e : KubeError) × (x ≡ kube e)
        × (contains "NotFound" e.text ≡ true)
        × ((res : ObjectMeta) × IsMade k res l' × IsOwnedBy instance_name_of res own)
  unfolding missing_instance fail
  missing_instance_lem (kube e) k l' own h = elim (Bool-cases (contains "NotFound" e.text)) [
    | inl absent ↦ (e, refl, absent, create_component_instance_lem k l' own (rw absent at h))
    | inr other ↦ absurd (cc (ap (λ p. p.0) (rw other at h)))
  ]
  missing_instance_lem (message t) k l' own h = absurd (cc (ap (λ p. p.0) h))
  missing_instance_lem panicked k l' own h = absurd (cc (ap (λ p. p.0) h))

-- When the owners of a component are found there is exactly one for adding or modifying it, the
-- component instance of its combined name, with the identity that the server answered. For adding,
-- the instance is created, or read where it exists already. For modifying, it is read, and named as
-- the answer names it; where it is not found it is created as for adding. In any other phase there
-- is no owner. No other request is made than those.
pub get_new_own_ref_lem :
    (server : Server) (namespace : String) (phase : Phase) (component : ComponentConfiguration)
    (owner : OwnerReference) (log l' : List Request) (refs : OwnerRefs)
    → get_new_own_ref server namespace phase component owner log ≡ (ok refs, l')
    → IsOwnersIn server namespace component owner phase refs log l'
unfolding get_new_own_ref pure
get_new_own_ref_lem server ns Phase.add comp owner log l' refs h =
    let (own, l, made, wrapped) = >>=-ok _ (λ own. pure (some own)) log l' refs h in
    let (res, is_made, owned) = create_component_instance_lem server ns comp owner log l own made in
    (
      res,
      own,
      ground (arith, wrapped),
      subst (IsMade server ns comp owner log res) (ground (arith, wrapped)) is_made,
      owned,
    )
get_new_own_ref_lem server ns Phase.modify comp owner log l' refs h =
    let (own, l, found, wrapped) = >>=-ok _ (λ own. pure (some own)) log l' refs h in
    let same : l ≡ l' = ground (arith, wrapped) in
    let some_own : refs ≡ some own = ground (arith, wrapped) in
    elim (unwrap_or_else-ok _ _ log l own found) [
      | inl present ↦
          let (res, read, logged, owned) = found_lem server ns comp owner log l own present in
          (res, own, some_own, inl (read, sym same ∙ logged, owned))
      | inr (x, k, refused, created) ↦
          let (e, is, absent, (res, is_made, owned)) =
            missing_instance_lem server ns comp owner x k l own created in
          let (unread, logged) =
            not_found_lem server ns comp owner log k e (refused ∙ ap (λ y. (err y, k)) is) in
          (
            res,
            own,
            some_own,
            inr (
              e,
              unread,
              absent,
              subst (λ m. IsMade server ns comp owner m res l') logged
                  (subst (IsMade server ns comp owner k res) same is_made),
              owned,
            ),
          )
    ]
get_new_own_ref_lem server ns Phase.pre_add comp owner log l' refs h = (ground arith, ground arith)
get_new_own_ref_lem server ns Phase.pre_modify comp owner log l' refs h =
    (ground arith, ground arith)
get_new_own_ref_lem server ns Phase.pre_delete comp owner log l' refs h =
    (ground arith, ground arith)
get_new_own_ref_lem server ns Phase.delete comp owner log l' refs h = (ground arith, ground arith)
