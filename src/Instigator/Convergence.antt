-- ===== src/Instigator/Convergence.antt =====
-- That handling a configuration again, with the records that were written, changes nothing.
use rudr.Prelude.{
  ℕ, String, ◌≡◌, ◌==◌, refl, ap, subst, sym, ◌∙◌, inl, inr, true, false, none, some, List, [], ◌∷◌,
  ◌++◌, ok, All, All-map, or_else, unwrap_or, if◌then◌else◌, eq_iff, eq_refl, Bool-cases,
  Option-cases, arith,
}
use rudr.BTreeMap
use rudr.BTreeMap.{BTreeMap}
use rudr.BTreeMap.Laws.{get-remove}
use rudr.Cluster.{OwnerReference}
use rudr.Lifecycle.{Phase}
use rudr.Configuration.{ComponentConfiguration, OpResource}
use rudr.KubeObjects.{KubeComponent}
use rudr.Client.{Server, Request}
use rudr.Instigator.{ComponentRecord, RecordAnnotation, get_record_annotation}
use rudr.Instigator.Setting.{Platform, component_get}
use rudr.Instigator.Execution.{
  Progress, started, new_record, exec_components, exec, record_annotation,
}
use rudr.Instigator.Idle.{IsSettled, definition_reads, exec-settled}
use rudr.Instigator.Records.{latest, exec_components-records}

-- No two components have one instance name.
unfoldable pub IsDistinct : List ComponentConfiguration → Type 0
IsDistinct [] = Unit
IsDistinct (c ∷ cs) = (latest c.instance_name cs ≡ none) × IsDistinct cs

-- The server holds one definition for each name, whatever is asked of it.
abbrev pub HoldsDefinitions : Server → String → (String → KubeComponent) → Type 0
HoldsDefinitions server namespace def_of =
    (log : List Request) (name : String)
    → server.read_component log (component_get namespace name) ≡ ok (def_of name)

no_entries : (m : RecordAnnotation) → ((k : String) → BTreeMap.get k m ≡ none) → m ≡ []
unfolding BTreeMap.get
no_entries [] h = refl
no_entries ((j, v) ∷ m) h =
    let there : BTreeMap.get j ((j, v) ∷ m) ≡ some v = rw (eq_refl j) refl in
    absurd (cc (sym there ∙ h j))

pub others_differ :
    (k : String) (cs : List ComponentConfiguration)
    → latest k cs ≡ none
    → All (λ (d : ComponentConfiguration). (k == d.instance_name) ≡ false) cs
unfolding latest
others_differ k [] h = tt
others_differ k (c ∷ cs) h = elim (Option-cases (latest k cs)) [
  | inr (d, found) ↦ absurd (cc (rw found at h))
  | inl later ↦ elim (Bool-cases (c.instance_name == k)) [
    | inl here ↦ absurd (cc (rw (later, here) at h))
    | inr other ↦ (
      ground (arith, other, eq_iff k c.instance_name, eq_iff c.instance_name k),
      others_differ k cs later,
    )
  ]
]

latest_self :
    (cs : List ComponentConfiguration)
    → IsDistinct cs
    → All (λ (d : ComponentConfiguration). latest d.instance_name cs ≡ some d) cs
unfolding latest IsDistinct
latest_self [] h = tt
latest_self (c ∷ cs) (only, h) = (
  rw (only, eq_refl c.instance_name) refl,
  All-map _ _
      (λ d e. ap (λ x. or_else x (if c.instance_name == d.instance_name then some c else none)) e)
      cs (latest_self cs h),
)

module _ (platform : Platform) (server : Server) (namespace : String)
    (def_of : String → KubeComponent) where
  -- The component is recorded with the version of its definition.
  abbrev IsNoted : RecordAnnotation → ComponentConfiguration → Type 0
  IsNoted last c =
      (version : String) × ((def_of c.component_name).metadata.resource_version ≡ some version)
      × (BTreeMap.get c.instance_name last ≡ some (new_record c version))

  kept_after :
      (k : String) (last : RecordAnnotation) (cs : List ComponentConfiguration)
      → All (λ (d : ComponentConfiguration). (k == d.instance_name) ≡ false) cs
      → All (IsNoted last) cs
      → All (IsNoted (BTreeMap.remove k last)) cs
  kept_after k last [] differ noted = tt
  kept_after k last (d ∷ cs) (other, differ) ((version, numbered, found), noted) =
      let looked : BTreeMap.get d.instance_name (BTreeMap.remove k last)
          ≡ (if k == d.instance_name then none else BTreeMap.get d.instance_name last) =
        get-remove k d.instance_name last in
      ((version, numbered, rw other at looked ∙ found), kept_after k last cs differ noted)

  rest_after :
      (c : ComponentConfiguration) (last : RecordAnnotation) (cs : List ComponentConfiguration)
      → ((k : String) → latest k (c ∷ cs) ≡ none → BTreeMap.get k last ≡ none)
      → (k : String) → latest k cs ≡ none
      → BTreeMap.get k (BTreeMap.remove c.instance_name last) ≡ none
  unfolding latest
  rest_after c last cs rest k later =
      let looked : BTreeMap.get k (BTreeMap.remove c.instance_name last)
          ≡ (if c.instance_name == k then none else BTreeMap.get k last) =
        get-remove c.instance_name k last in
      elim (Bool-cases (c.instance_name == k)) [
        | inl here ↦ rw here at looked
        | inr other ↦ rw other at looked ∙ rest k (rw (later, other) refl)
      ]

  no_work_left :
      (last : RecordAnnotation) (cs : List ComponentConfiguration) (log : List Request)
      → HoldsDefinitions server namespace def_of
      → ((r : ComponentRecord) → platform.same r r ≡ true)
      → IsDistinct cs
      → All (IsNoted last) cs
      → ((k : String) → latest k cs ≡ none → BTreeMap.get k last ≡ none)
      → IsSettled platform server namespace last cs log
  unfolding IsSettled IsDistinct latest
  no_work_left last [] log holds same distinct noted rest = no_entries last (λ k. rest k refl)
  no_work_left last (c ∷ cs) log holds same (only, distinct) ((version, numbered, found), noted)
        rest =
      (
        (
          def_of c.component_name,
          version,
          new_record c version,
          holds log c.component_name,
          numbered,
          found,
          same (new_record c version),
        ),
        no_work_left (BTreeMap.remove c.instance_name last) cs
            (log ++ (component_get namespace c.component_name ∷ [])) holds same distinct
            (kept_after c.instance_name last cs (others_differ c.instance_name cs only) noted)
            (rest_after c last cs rest),
      )

  written_by_loop :
      (o : OpResource) (owner : OwnerReference) (phase : Phase) (last : RecordAnnotation)
      (cs : List ComponentConfiguration) (t : Progress) (log l' : List Request)
      → HoldsDefinitions server namespace def_of
      → exec_components platform server namespace o owner (started last phase) cs log ≡ (ok t, l')
      → (d : ComponentConfiguration) → latest d.instance_name cs ≡ some d
      → IsNoted t.new_components d
  written_by_loop o owner phase last cs t log l' holds ran d found =
      let (_, present) =
        exec_components-records platform server namespace o owner phase last cs t log l'
          d.instance_name ran in
      let (_, (version, (l, comp_def, read, numbered), recorded)) = present d found in
      let same : comp_def ≡ def_of d.component_name =
        ground (arith, read, holds l d.component_name) in
      (version, ap (λ x. x.metadata.resource_version) (sym same) ∙ numbered, recorded)

-- While the server keeps its definitions, handling a configuration has a fixed point: where the loop
-- over its components succeeded, whose instance names are distinct, and the configuration then holds
-- the records that the loop collected, handling it again in any phase only reads the definition of
-- each component, and succeeds.
pub exec-converges :
    (platform : Platform) (server : Server) (namespace : String) (def_of : String → KubeComponent)
    (fuel : ℕ) (o o' : OpResource) (owner : OwnerReference) (phase phase' : Phase) (uid : String)
    (last : RecordAnnotation) (t : Progress) (log l' later : List Request)
    → HoldsDefinitions server namespace def_of
    → ((r : ComponentRecord) → platform.same r r ≡ true)
    → IsDistinct (unwrap_or o.spec.components [])
    → exec_components platform server namespace o owner
        (started last phase)
        (unwrap_or o.spec.components [])
        log
      ≡ (ok t, l')
    → o'.spec ≡ o.spec
    → o'.spec.scopes ≡ none
    → o'.metadata.uid ≡ some uid
    → get_record_annotation platform.parse_records
        (BTreeMap.get record_annotation o'.metadata.annotations)
      ≡ ok t.new_components
    → exec platform server namespace fuel o' phase' later
      ≡ (ok (some tt), later ++ definition_reads namespace (unwrap_or o.spec.components []))
exec-converges platform server ns def_of fuel o o' owner phase phase' uid last t log l' later holds
      same distinct ran kept no_scopes identified records =
    let components = unwrap_or o.spec.components [] in
    let kept_components : unwrap_or o'.spec.components [] ≡ components =
      ap (λ x. unwrap_or x.components []) kept in
    let noted =
      All-map _ _
        (written_by_loop platform server ns def_of o owner phase last components t log l' holds ran)
        components (latest_self components distinct) in
    let settled =
      no_work_left platform server ns def_of t.new_components components later holds same distinct
        noted
        (λ k absent.
          ((exec_components-records platform server ns o owner phase last components t log l' k
              ran).0
            absent).1) in
    exec-settled platform server ns fuel o' phase' uid t.new_components later no_scopes identified
      records
      (subst (λ cs. IsSettled platform server ns t.new_components cs later) (sym kept_components)
        settled)
    ∙ ap (λ cs. (ok (some tt), later ++ definition_reads ns cs)) kept_components
