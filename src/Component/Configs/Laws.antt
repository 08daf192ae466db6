-- ===== src/Component/Configs/Laws.antt =====
-- The config maps that are created against those that the pod's volumes refer to.
use text.Mathlib.TextLemmas.{append_assoc}
use rudr.Prelude.{
  ℕ, suc, String, ◌≡◌, ◌≢◌, none, some, List, [], ◌∷◌, map, ◌<>◌, ok, Result-cases, arith, inl, inr,
  unwrap_or, concat_map, All, All-append, All-map, ok_or, eq_iff,
}
use rudr.BTreeMap
use rudr.BTreeMap.Laws.{get-insert}
use rudr.BTreeMap.{BTreeMap}
use rudr.StdText.{file_name, show_nat}
use rudr.Json.{Serde}
use rudr.Parameter.{ParamMap}
use rudr.Component.{Volume, ConfigFile, Container, Component}
use rudr.Component.Containers.{panic, configured_volume}
use rudr.Component.PodSpec.{config_volumes, volume_source, container_volumes, to_pod_spec}
use rudr.Component.Kube
use rudr.Component.Configs.{
  ConfigMaps, config_value, evaluate_from, evaluate_containers, evaluate_configs,
}

-- A volume that refers to a config map refers to one of `configs`.
abbrev pub HasSource : ConfigMaps → Kube.Volume → Type 0
HasSource configs v = (n : String) → v.config_map ≡ some (some n) → BTreeMap.get n configs ≢ none

abbrev Extends : ConfigMaps → ConfigMaps → Type 0
Extends m m' = (k : String) → BTreeMap.get k m ≢ none → BTreeMap.get k m' ≢ none

module _ (serde : Serde) (vals : ParamMap) where
  evaluate_from_lem :
      (c : Container) (i : ℕ) (confs : List ConfigFile) (m m' : ConfigMaps)
      → evaluate_from serde vals c i confs m ≡ ok m'
      → All (HasSource m') (config_volumes c i confs) × Extends m m'
  unfolding evaluate_from config_volumes
  evaluate_from_lem c i [] m m' h = (tt, λ k p. ground arith)
  evaluate_from_lem c i (f ∷ fs) m m' h = elim (Result-cases (ok_or panic (file_name f.path))) [
    | inl (filename, named) ↦ elim (Result-cases (config_value serde vals f)) [
      | inl (value, valued) ↦
          let key = c.name <> show_nat i in
          let entry = BTreeMap.insert filename value [] in
          let (later, grows) =
            evaluate_from_lem c (suc i) fs (BTreeMap.insert key entry m) m' (ground arith) in
          (
            (λ n e. grows n (ground (arith, get-insert key n entry m, eq_iff key n)), later),
            λ k p. grows k (ground (arith, get-insert key k entry m)),
          )
      | inr (p, bad) ↦ absurd (ground arith)
    ]
    | inr (p, bad) ↦ absurd (ground arith)
  ]

  no_source : (m : ConfigMaps) (vs : List Volume) → All (HasSource m) (map volume_source vs)
  unfolding volume_source
  no_source m [] = tt
  no_source m (v ∷ vs) = (λ n e. absurd (ground arith), no_source m vs)

  HasSource-Extends :
      (m m' : ConfigMaps) → Extends m m' → (v : Kube.Volume) → HasSource m v → HasSource m' v
  HasSource-Extends m m' grows v h n e = grows n (h n e)

  evaluate_containers_lem :
      (cs : List Container) (m m' : ConfigMaps)
      → evaluate_containers serde vals cs m ≡ ok m'
      → All (HasSource m') (concat_map container_volumes cs) × Extends m m'
  unfolding evaluate_containers container_volumes
  evaluate_containers_lem [] m m' h = (tt, λ k p. ground arith)
  evaluate_containers_lem (c ∷ cs) m m' h =
      elim (Result-cases (evaluate_from serde vals c 0 (unwrap_or c.config []) m)) [
        | inl (m1, first) ↦
            let (own, grows) = evaluate_from_lem c 0 (unwrap_or c.config []) m m1 first in
            let (others, grows') = evaluate_containers_lem cs m1 m' (ground arith) in
            (
              All-append (HasSource m') _ _
                  (All-append (HasSource m') _ _
                    (All-map (HasSource m1) (HasSource m') (HasSource-Extends m1 m' grows') _ own)
                    (no_source m' (unwrap_or c.resources.volumes [])))
                  others,
              λ k p. grows' k (grows k p),
            )
        | inr (p, failed) ↦ absurd (ground arith)
      ]

-- Where a component converts to a pod and to config maps, each config map that a volume of the pod
-- refers to is among them.
pub to_pod_spec-HasSource :
    (serde : Serde) (show_f64 : ℕ → String) (self : Component) (vals : ParamMap)
    (pod : Kube.PodSpec) (configs : ConfigMaps)
    → to_pod_spec serde show_f64 self vals ≡ ok pod
    → evaluate_configs serde vals self ≡ ok configs
    → All (HasSource configs) (unwrap_or pod.volumes [])
unfolding to_pod_spec evaluate_configs
to_pod_spec-HasSource serde show_f64 self vals pod configs h e =
    let same : unwrap_or pod.volumes [] ≡ concat_map container_volumes self.containers =
      ground arith in
    rw same (evaluate_containers_lem serde vals self.containers [] configs e).0

-- The eleventh file of a container and the first of one whose name has a `1` more share the name
-- of their volume, and so of their config map.
pub config_name_collision :
    (c d : Container) (f g : ConfigFile) (m n : Kube.VolumeMount)
    → d.name ≡ c.name <> "1"
    → configured_volume c 10 f ≡ ok m
    → configured_volume d 0 g ≡ ok n
    → m.name ≡ n.name
unfolding configured_volume show_nat
config_name_collision c d f g m n longer first second = ground (arith, append_assoc c.name "1" "0")
