-- ===== src/Instigator/Pending.antt =====
-- That the status loop leaves a configuration alone that is yet to be handled.
use rudr.Prelude.{
  subst, ℕ, String, ◌≡◌, ◌==◌, refl, ap, sym, ◌∙◌, inl, inr, true, false, none, some, List, [], ◌∷◌,
  ok, All, Any, Bool-cases, if◌then◌else◌, unwrap_or, arith,
}
use rudr.BTreeMap
use rudr.BTreeMap.{BTreeMap}
use rudr.BTreeMap.Laws.{get-remove}
use rudr.Configuration.{ComponentConfiguration, OpResource}
use rudr.KubeObjects.{KubeComponent}
use rudr.Client.{Server, Request, pure, resume, ◌>>=◌, unwrap, from_result}
use rudr.Client.Laws.{>>=-ok}
use rudr.Instigator.{RecordAnnotation, get_record_annotation, check_diff}
use rudr.Instigator.Setting.{Platform}
use rudr.Instigator.Execution.{record_annotation, new_record}
use rudr.Instigator.Sync.{
  Synced, pass_synced, sync_loaded, sync_component, sync_components, sync_started, sync_status,
}
use rudr.Instigator.Records.{get_component_def-ok, unwrap-some}
use rudr.Instigator.Convergence.{HoldsDefinitions, IsDistinct, others_differ}

module _ (platform : Platform) (def_of : String → KubeComponent) where
  -- The component differs from its record, or has none.
  abbrev pub IsChanged : RecordAnnotation → ComponentConfiguration → Type 0
  IsChanged last c =
      (version : String)
      → (def_of c.component_name).metadata.resource_version ≡ some version
      → check_diff platform.same (BTreeMap.get c.instance_name last) (new_record c version) ≡ true

  apart_after :
      (k : String) (last : RecordAnnotation) (cs : List ComponentConfiguration)
      → All (λ (d : ComponentConfiguration). (k == d.instance_name) ≡ false) cs
      → Any (IsChanged last) cs
      → Any (IsChanged (BTreeMap.remove k last)) cs
  apart_after k last [] differ h = absurd h
  apart_after k last (d ∷ cs) (other, differ) (inr h) = inr (apart_after k last cs differ h)
  apart_after k last (d ∷ cs) (other, differ) (inl h) =
      let looked : BTreeMap.get d.instance_name (BTreeMap.remove k last)
          ≡ (if k == d.instance_name then none else BTreeMap.get d.instance_name last) =
        get-remove k d.instance_name last in
      let unmoved : BTreeMap.get d.instance_name (BTreeMap.remove k last)
          ≡ BTreeMap.get d.instance_name last =
        rw other at looked in
      inl (λ version numbered. rw unmoved (h version numbered))

-- What one round of the loop does to its variables.
abbrev IsPassedBy : Platform → String → ComponentConfiguration → Synced → Synced → Type 0
IsPassedBy platform version c s u =
    (u.last_components ≡ BTreeMap.remove c.instance_name s.last_components)
    × (s.has_diff ≡ true → u.has_diff ≡ true)
    × (check_diff platform.same (BTreeMap.get c.instance_name s.last_components)
            (new_record c version)
          ≡ true
        → u.has_diff ≡ true)

module _ (platform : Platform) (server : Server) (namespace : String) (o : OpResource) where
  sync_loaded_lem :
      (c : ComponentConfiguration) (comp_def : KubeComponent) (version : String) (s u : Synced)
      (log l' : List Request)
      → sync_loaded platform server namespace o c comp_def version s log ≡ (ok u, l')
      → IsPassedBy platform version c s u
  unfolding sync_loaded pass_synced pure
  sync_loaded_lem c comp_def version s u log l' h =
      elim (Bool-cases (
        check_diff platform.same (BTreeMap.get c.instance_name s.last_components)
          (new_record c version))) [
            | inl differs ↦
                let e = rw (sync_loaded, differs) at h in
                (ground (arith, e), λ _. ground (arith, e), λ _. ground (arith, e))
            | inr same ↦
                let (status, l, _, e) = >>=-ok _ _ log l' u (rw (sync_loaded, same) at h) in
                (ground (arith, e), λ d. ground (arith, e, d), λ d. cc (sym same ∙ d))
          ]

  module _ (def_of : String → KubeComponent) where
    sync_component_lem :
        (c : ComponentConfiguration) (s u : Synced) (log l' : List Request)
        → HoldsDefinitions server namespace def_of
        → sync_component platform server namespace o s c log ≡ (ok u, l')
        → (version : String) × ((def_of c.component_name).metadata.resource_version ≡ some version)
          × IsPassedBy platform version c s u
    unfolding sync_component
    sync_component_lem c s u log l' holds h =
        let (comp_def, l, read, rest) = >>=-ok _ _ log l' u h in
        let (version, k, numbered, last) =
          >>=-ok (unwrap comp_def.metadata.resource_version) _ l l' u rest in
        let found =
          get_component_def-ok platform server namespace c.component_name comp_def log l read in
        let same : comp_def ≡ def_of c.component_name =
          ground (arith, found, holds log c.component_name) in
        (
          version,
          ap (λ x. x.metadata.resource_version) (sym same)
              ∙ unwrap-some comp_def.metadata.resource_version version l k numbered,
          sync_loaded_lem c comp_def version s u k l' last,
        )

    sync_components_keep :
        (cs : List ComponentConfiguration) (s t : Synced) (log l' : List Request)
        → HoldsDefinitions server namespace def_of
        → sync_components platform server namespace o s cs log ≡ (ok t, l')
        → s.has_diff ≡ true
        → t.has_diff ≡ true
    unfolding sync_components pure
    sync_components_keep [] s t log l' holds h d =
        let same : s ≡ t = ground arith in ap (λ x. x.has_diff) (sym same) ∙ d
    sync_components_keep (c ∷ cs) s t log l' holds h d =
        let (u, l, first, rest) = >>=-ok _ _ log l' t h in
        let (_, _, passed) = sync_component_lem c s u log l holds first in
        sync_components_keep cs u t l l' holds rest (passed.1 d)

    sync_components_notice :
        (cs : List ComponentConfiguration) (s t : Synced) (log l' : List Request)
        → HoldsDefinitions server namespace def_of
        → IsDistinct cs
        → sync_components platform server namespace o s cs log ≡ (ok t, l')
        → Any (IsChanged platform def_of s.last_components) cs
        → t.has_diff ≡ true
    unfolding sync_components IsDistinct
    sync_components_notice [] s t log l' holds distinct h changed = absurd changed
    sync_components_notice (c ∷ cs) s t log l' holds (only, distinct) h (inl changed) =
        let (u, l, first, rest) = >>=-ok _ _ log l' t h in
        let (version, numbered, passed) = sync_component_lem c s u log l holds first in
        sync_components_keep cs u t l l' holds rest (passed.2 (changed version numbered))
    sync_components_notice (c ∷ cs) s t log l' holds (only, distinct) h (inr changed) =
        let (u, l, first, rest) = >>=-ok _ _ log l' t h in
        let (_, _, passed) = sync_component_lem c s u log l holds first in
        sync_components_notice cs u t l l' holds distinct rest (
          subst (λ m. Any (IsChanged platform def_of m) cs) (sym passed.0)
            (apart_after platform def_of c.instance_name s.last_components cs
              (others_differ c.instance_name cs only) changed))

-- A configuration that is yet to be handled is not reported as synced: where the instance names are
-- distinct, the server keeps its definitions, some component differs from its record or has none,
-- and the loop over the components succeeds, the handler of the status succeeds with the requests of
-- that loop only, so that the status is not patched.
pub sync_status-pending :
    (platform : Platform) (server : Server) (namespace : String) (def_of : String → KubeComponent)
    (fuel : ℕ) (o : OpResource) (last : RecordAnnotation) (t : Synced) (log l' : List Request)
    → HoldsDefinitions server namespace def_of
    → IsDistinct (unwrap_or o.spec.components [])
    → get_record_annotation platform.parse_records
        (BTreeMap.get record_annotation o.metadata.annotations)
      ≡ ok last
    → Any (IsChanged platform def_of last) (unwrap_or o.spec.components [])
    → sync_components platform server namespace o
        (sync_started last)
        (unwrap_or o.spec.components [])
        log
      ≡ (ok t, l')
    → sync_status platform server namespace fuel o log ≡ (ok (some tt), l')
unfolding sync_status ◌>>=◌ resume from_result pure
sync_status-pending platform server ns def_of fuel o last t log l' holds distinct records changed
      ran =
    let differs =
      sync_components_notice platform server ns o def_of (unwrap_or o.spec.components [])
        (sync_started last) t log l' holds distinct ran changed in
    rw (records, ran, differs) refl
