-- ===== src/Instigator/Records.antt =====
-- What the loop over the components leaves of the last records and puts into the new ones.
use rudr.Prelude.{
  subst, Result-cases, String, ◌≡◌, ◌==◌, ap, sym, ◌∙◌, inl, inr, true, Option, none, some, List,
  [], ◌∷◌, ok, or_else, if◌then◌else◌, Bool-cases, Option-cases, arith,
}
use rudr.BTreeMap
use rudr.BTreeMap.Laws.{get-insert, get-remove, get-nil}
use rudr.Cluster.{OwnerReference}
use rudr.Lifecycle.{Phase}
use rudr.Configuration.{ComponentConfiguration, OpResource}
use rudr.KubeObjects.{KubeComponent}
use rudr.Client.{unwrap_or_else, handle, request, fail, Server, Request, pure, ◌>>◌, unwrap}
use rudr.Client.Laws.{>>=-ok, >>-pure_ok}
use rudr.Instigator.{ComponentRecord, RecordAnnotation, check_diff}
use rudr.Instigator.Setting.{Platform, component_get, definition_missing, get_component_def}
use rudr.Instigator.Execution.{
  apply_component, switch_phase, Progress, started, new_record, pass, update_component,
  exec_component, exec_components,
}

-- The last of the components with an instance name.
unfoldable pub latest : String → List ComponentConfiguration → Option ComponentConfiguration
latest k [] = none
latest k (c ∷ cs) = or_else (latest k cs) (if c.instance_name == k then some c else none)

module _ (server : Server) (namespace : String) where
  -- The version of a definition of the component that was read.
  abbrev pub IsVersion : ComponentConfiguration → String → Type 0
  IsVersion c version =
      (log : List Request) × (comp_def : KubeComponent) × (server.read_component log
          (component_get namespace c.component_name)
        ≡ ok comp_def)
      × (comp_def.metadata.resource_version ≡ some version)

  -- What is recorded under a name after the loop, with what was before it.
  abbrev IsMoved : String → List ComponentConfiguration → Progress → Progress → Type 0
  IsMoved k cs s t =
      (latest k cs ≡ none
        → (BTreeMap.get k t.last_components ≡ BTreeMap.get k s.last_components)
          × (BTreeMap.get k t.new_components ≡ BTreeMap.get k s.new_components))
      × ((c : ComponentConfiguration)
          → latest k cs ≡ some c
          → (BTreeMap.get k t.last_components ≡ none)
            × ((version : String) × IsVersion c version
                × (BTreeMap.get k t.new_components ≡ some (new_record c version))))

-- A component has moved from the last records to the new ones.
abbrev IsPassed : String → ComponentConfiguration → Progress → Progress → Type 0
IsPassed version c s t =
    (t.last_components ≡ BTreeMap.remove c.instance_name s.last_components)
    × (t.new_components ≡ BTreeMap.insert c.instance_name (new_record c version) s.new_components)

step-IsMoved :
    (server : Server) (namespace k version : String) (c : ComponentConfiguration)
    (cs : List ComponentConfiguration) (s t u : Progress)
    → IsVersion server namespace c version
    → IsPassed version c s t
    → IsMoved server namespace k cs t u
    → IsMoved server namespace k (c ∷ cs) s u
unfolding latest
step-IsMoved server ns k version c cs s t u read (last_eq, new_eq) (absent, present) =
    let last : BTreeMap.get k t.last_components
        ≡ (if c.instance_name == k then none else BTreeMap.get k s.last_components) =
      rw last_eq (get-remove c.instance_name k s.last_components) in
    let new : BTreeMap.get k t.new_components ≡ (
        if c.instance_name == k
        then some (new_record c version)
        else BTreeMap.get k s.new_components) =
      rw new_eq (get-insert c.instance_name k (new_record c version) s.new_components) in
    elim (Option-cases (latest k cs)) [
      | inr (d, found) ↦
          (λ h. absurd (cc (rw found at h)), λ e h. present e (found ∙ rw found at h))
      | inl later ↦ elim (Bool-cases (c.instance_name == k)) [
        | inl here ↦ (
          λ h. absurd (cc (rw (later, here) at h)),
          λ e h.
              let same : c ≡ e = ground (arith, rw (later, here) at h) in
              (
                (absent later).0 ∙ rw here at last,
                (
                  version,
                  subst (λ x. IsVersion server ns x version) same read,
                  (absent later).1 ∙ (rw here at new ∙ ap (λ x. some (new_record x version)) same),
                ),
              ),
        )
        | inr other ↦ (
          λ _. ((absent later).0 ∙ rw other at last, (absent later).1 ∙ rw other at new),
          λ e h. absurd (cc (rw (later, other) at h)),
        )
      ]
    ]

pub unwrap-some :
    {A : Type 0} (x : Option A) (a : A) (log l' : List Request)
    → unwrap x log ≡ (ok a, l')
    → x ≡ some a
unfolding unwrap
unwrap-some none a log l' h = cc (ap (λ p. p.0) h)
unwrap-some (some b) a log l' h = ground arith

module _ (platform : Platform) (server : Server) (namespace : String) where
  pub get_component_def-ok :
      (name : String) (comp_def : KubeComponent) (log l' : List Request)
      → get_component_def platform server namespace name log ≡ (ok comp_def, l')
      → server.read_component log (component_get namespace name) ≡ ok comp_def
  unfolding get_component_def definition_missing unwrap_or_else handle request fail
  get_component_def-ok name comp_def log l' h =
      elim (Result-cases (server.read_component log (component_get namespace name))) [
        | inl (d, found) ↦
            let e = rw (get_component_def, found) at h in rw found (ground (arith, e))
        | inr (x, missing) ↦ cc (ap (λ p. p.0) (rw (get_component_def, missing) at h))
      ]

module _ (platform : Platform) (server : Server) (namespace : String) (o : OpResource)
    (owner : OwnerReference) where
  update_component-IsPassed :
      (c : ComponentConfiguration) (comp_def : KubeComponent) (recorded : Option ComponentRecord)
      (version : String) (s t : Progress) (log l' : List Request)
      → update_component platform server namespace o owner c comp_def recorded version s log
        ≡ (ok t, l')
      → IsPassed version c s t
  unfolding update_component pass pure
  update_component-IsPassed c comp_def recorded version s t log l' h =
      elim (Bool-cases (check_diff platform.same recorded (new_record c version))) [
        | inl differs ↦
            let applied : (apply_component platform server namespace o owner
                      (switch_phase recorded s.phase) c comp_def
                    >> pure (record (pass c version s) {
                      component_updated = true;
                      phase = switch_phase recorded s.phase;
                    }))
                  log
                ≡ (ok t, l') =
              rw (update_component, differs) at h in
            let same = >>-pure_ok _ _ t log l' applied in
            (ground (arith, same), ground (arith, same))
        | inr same ↦
            let e = rw (update_component, same) at h in (ground (arith, e), ground (arith, e))
      ]

  exec_component-IsPassed :
      (c : ComponentConfiguration) (s t : Progress) (log l' : List Request)
      → exec_component platform server namespace o owner s c log ≡ (ok t, l')
      → (version : String) × IsVersion server namespace c version × IsPassed version c s t
  unfolding exec_component
  exec_component-IsPassed c s t log l' h =
      let (comp_def, l, read, rest) = >>=-ok _ _ log l' t h in
      let (version, k, numbered, last) =
        >>=-ok (unwrap comp_def.metadata.resource_version) _ l l' t rest in
      (
        version,
        (
          log,
          comp_def,
          get_component_def-ok platform server namespace c.component_name comp_def log l read,
          unwrap-some comp_def.metadata.resource_version version l k numbered,
        ),
        update_component-IsPassed c comp_def _ version s t k l' last,
      )

  exec_components-IsMoved :
      (k : String) (cs : List ComponentConfiguration) (s t : Progress) (log l' : List Request)
      → exec_components platform server namespace o owner s cs log ≡ (ok t, l')
      → IsMoved server namespace k cs s t
  unfolding exec_components pure latest
  exec_components-IsMoved k [] s t log l' h =
      let same : s ≡ t = ground arith in
      (
        λ _. (
          ap (λ x. BTreeMap.get k x.last_components) (sym same),
          ap (λ x. BTreeMap.get k x.new_components) (sym same),
        ),
        λ c e. absurd (cc e),
      )
  exec_components-IsMoved k (c ∷ cs) s t log l' h =
      let (u, l, first, rest) = >>=-ok _ _ log l' t h in
      let (version, read, passed) = exec_component-IsPassed c s u log l first in
      step-IsMoved server namespace k version c cs s u t read passed
        (exec_components-IsMoved k cs u t l l' rest)

-- When the loop over the components of a configuration succeeds, then under each instance name that
-- some component has nothing is left of the last records, and the new records hold the last such
-- component with a version that was read of its definition; under any other name the last record is left to be deleted, and there is no new one.
pub exec_components-records :
    (platform : Platform) (server : Server) (namespace : String) (o : OpResource)
    (owner : OwnerReference) (phase : Phase) (last : RecordAnnotation)
    (cs : List ComponentConfiguration) (t : Progress) (log l' : List Request) (k : String)
    → exec_components platform server namespace o owner (started last phase) cs log ≡ (ok t, l')
    → (latest k cs ≡ none
        → (BTreeMap.get k t.last_components ≡ BTreeMap.get k last)
          × (BTreeMap.get k t.new_components ≡ none))
      × ((c : ComponentConfiguration)
          → latest k cs ≡ some c
          → (BTreeMap.get k t.last_components ≡ none)
            × ((version : String) × IsVersion server namespace c version
                × (BTreeMap.get k t.new_components ≡ some (new_record c version))))
exec_components-records platform server ns o owner phase last cs t log l' k h =
    let (absent, present) =
      exec_components-IsMoved platform server ns o owner k cs (started last phase) t log l' h in
    (λ e. ((absent e).0, (absent e).1 ∙ get-nil k), present)
