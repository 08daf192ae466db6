-- ===== src/Instigator/Idle.antt =====
-- A configuration whose components are as they were recorded.
use rudr.Prelude.{
  ℕ, String, ◌≡◌, refl, ap, ◌∙◌, true, none, some, List, [], ◌∷◌, ◌++◌, map, ok, append_assoc,
  append-nil, unwrap_or,
}
use rudr.BTreeMap
use rudr.Cluster.{OwnerReference}
use rudr.Lifecycle.{Phase}
use rudr.Configuration.{ComponentConfiguration, OpResource}
use rudr.KubeObjects.{KubeComponent}
use rudr.Client.{
  Server, Request, request, pure, resume, ◌>>=◌, ◌>>◌, unwrap_or_else, handle, unwrap, from_result,
}
use rudr.Instigator.{
  ComponentRecord, RecordAnnotation, config_owner_reference, get_record_annotation, check_diff,
}
use rudr.Instigator.Setting.{Platform, component_get, get_component_def}
use rudr.Instigator.Execution.{
  Progress, new_record, pass, update_component, exec_component, exec_components, delete_components,
  conclude, exec_configuration, exec, record_annotation, started,
}

abbrev pub definition_reads : String → List ComponentConfiguration → List Request
definition_reads namespace cs = map (λ c. component_get namespace c.component_name) cs

module _ (platform : Platform) (server : Server) (namespace : String) where
  -- The record of the component is that of its present definition.
  abbrev pub IsRecorded : RecordAnnotation → ComponentConfiguration → List Request → Type 0
  IsRecorded last c log =
      (comp_def : KubeComponent) × (version : String) × (r : ComponentRecord)
      × (server.read_component log (component_get namespace c.component_name) ≡ ok comp_def)
      × (comp_def.metadata.resource_version ≡ some version)
      × (BTreeMap.get c.instance_name last ≡ some r)
      × (platform.same r (new_record c version) ≡ true)

  -- Every component is recorded so, one after another, and there is no record but theirs.
  unfoldable pub IsSettled : RecordAnnotation → List ComponentConfiguration → List Request → Type 0
  IsSettled last [] log = last ≡ []
  IsSettled last (c ∷ cs) log =
      IsRecorded last c log
      × IsSettled (BTreeMap.remove c.instance_name last) cs
          (log ++ (component_get namespace c.component_name ∷ []))

  exec_component_idle :
      (o : OpResource) (owner : OwnerReference) (s : Progress) (c : ComponentConfiguration)
      (log : List Request)
      → IsRecorded s.last_components c log
      → (version : String) × (exec_component platform server namespace o owner s c log
          ≡ (ok (pass c version s), log ++ (component_get namespace c.component_name ∷ [])))
  unfolding exec_component get_component_def update_component check_diff ◌>>=◌ resume unwrap_or_else
      handle unwrap request pure
  exec_component_idle o owner s c log (comp_def, version, r, read, numbered, recorded, same) = (
    version,
    rw
        (
          exec_component, get_component_def, read, numbered, recorded, update_component, check_diff,
          same,
        )
        refl,
  )

  exec_components_idle :
      (o : OpResource) (owner : OwnerReference) (s : Progress) (cs : List ComponentConfiguration)
      (log : List Request)
      → IsSettled s.last_components cs log
      → (t : Progress) × (exec_components platform server namespace o owner s cs log
          ≡ (ok t, log ++ definition_reads namespace cs))
        × (t.last_components ≡ [])
        × (t.component_updated ≡ s.component_updated)
  unfolding exec_components ◌>>=◌ resume pure IsSettled pass
  exec_components_idle o owner s [] log settled = (s, rw (append-nil log) refl, settled, refl)
  exec_components_idle o owner s (c ∷ cs) log (recorded, settled) =
      let (version, step) = exec_component_idle o owner s c log recorded in
      let (t, rest, done, unchanged) =
        exec_components_idle o owner (pass c version s) cs
          (log ++ (component_get namespace c.component_name ∷ [])) settled in
      (
        t,
        rw (exec_components, step)
            (rest ∙ ap (λ l. (ok t, l)) (append_assoc log _ (definition_reads namespace cs))),
        done,
        unchanged,
      )

  exec_configuration_idle :
      (fuel : ℕ) (o : OpResource) (owner : OwnerReference) (phase : Phase) (last : RecordAnnotation)
      (log : List Request)
      → get_record_annotation platform.parse_records
          (BTreeMap.get record_annotation o.metadata.annotations)
        ≡ ok last
      → IsSettled last (unwrap_or o.spec.components []) log
      → exec_configuration platform server namespace fuel o owner phase log
        ≡ (ok (some tt), log ++ definition_reads namespace (unwrap_or o.spec.components []))
  unfolding ◌>>=◌ resume from_result exec_configuration delete_components conclude ◌>>◌ pure
  exec_configuration_idle fuel o owner phase last log records settled =
      let (t, loop, done, unchanged) =
        exec_components_idle o owner (started last phase) (unwrap_or o.spec.components []) log
          settled in
      rw (exec_configuration, records, loop, done, conclude, unchanged) refl

-- Where every component of a configuration without scopes is recorded as it is defined now, and no
-- other component is recorded, handling the configuration in any phase only reads the definition of
-- each component, and succeeds.
pub exec-settled :
    (platform : Platform) (server : Server) (namespace : String) (fuel : ℕ) (o : OpResource)
    (phase : Phase) (uid : String) (last : RecordAnnotation) (log : List Request)
    → o.spec.scopes ≡ none
    → o.metadata.uid ≡ some uid
    → get_record_annotation platform.parse_records
        (BTreeMap.get record_annotation o.metadata.annotations)
      ≡ ok last
    → IsSettled platform server namespace last (unwrap_or o.spec.components []) log
    → exec platform server namespace fuel o phase log
      ≡ (ok (some tt), log ++ definition_reads namespace (unwrap_or o.spec.components []))
unfolding exec config_owner_reference ◌>>=◌ resume from_result
exec-settled platform server ns fuel o phase uid last log no_scopes identified records settled =
    rw (exec, identified, no_scopes)
      (exec_configuration_idle platform server ns fuel o _ phase last log records settled)
