-- ===== src/Component/Panics.antt =====
-- When the conversion of a component panics: at a configured file with no parent directory.
use rudr.Prelude.{
  ℕ, suc, String, ◌≡◌, ◌↔◌, inl, inr, List, [], ◌∷◌, ok, err, Result-cases, arith, unwrap_or, Any,
}
use rudr.StdText.Paths.{IsBare, parent-none_iff}
use rudr.Json.{Serde}
use rudr.Parameter.{ParamMap}
use rudr.Component.{ConfigFile, Container, Component}
use rudr.Component.Containers.{
  panic, configured_volume, configured_volumes, volume_mounts, to_container, convert_all,
  to_containers,
}
use rudr.Component.PodSpec.{to_pod_spec}
use rudr.Component.Kube

-- A configured file whose path is empty or no more than the root.
abbrev pub HasBarePath : ConfigFile → Type 0
HasBarePath f = IsBare f.path

abbrev pub HasRootConfig : Container → Type 0
HasRootConfig c = Any HasBarePath (unwrap_or c.config [])

configured_volumes-panic_iff :
    (c : Container) (i : ℕ) (confs : List ConfigFile)
    → (configured_volumes c i confs ≡ err panic) ↔ Any HasBarePath confs
unfolding configured_volumes configured_volume
configured_volumes-panic_iff c i [] = ground arith
configured_volumes-panic_iff c i (f ∷ fs) =
    ground (arith, configured_volumes-panic_iff c (suc i) fs, parent-none_iff f.path)

volume_mounts-panic_iff : (c : Container) → (volume_mounts c ≡ err panic) ↔ HasRootConfig c
unfolding volume_mounts
volume_mounts-panic_iff c = ground (arith, configured_volumes-panic_iff c 0 (unwrap_or c.config []))

module _ (serde : Serde) (show_f64 : ℕ → String) (vals : ParamMap) where
  convert_all-panic_iff :
      (cs : List Container)
      → (convert_all serde show_f64 vals cs ≡ err panic) ↔ Any HasRootConfig cs
  unfolding convert_all to_container
  convert_all-panic_iff [] = ground arith
  convert_all-panic_iff (c ∷ cs) =
      ground (arith, volume_mounts-panic_iff c, convert_all-panic_iff cs)

  pod-panic_iff :
      (self : Component)
      → (to_pod_spec serde show_f64 self vals ≡ err panic) ↔ Any HasRootConfig self.containers
  unfolding to_pod_spec to_containers
  pod-panic_iff self = ground (arith, convert_all-panic_iff self.containers)

-- Building a pod specification panics exactly when some container has a configured file whose path
-- is empty, or the root with no more than separators and components that are a dot behind it;
-- otherwise it returns one.
pub to_pod_spec-panic_iff :
    (serde : Serde) (show_f64 : ℕ → String) (self : Component) (vals : ParamMap)
    → ((to_pod_spec serde show_f64 self vals ≡ err panic) ↔ Any HasRootConfig self.containers)
      × ((¬ Any HasRootConfig self.containers)
          → (pod : Kube.PodSpec) × (to_pod_spec serde show_f64 self vals ≡ ok pod))
to_pod_spec-panic_iff serde show_f64 self vals =
    let iff = pod-panic_iff serde show_f64 vals self in
    (
      iff,
      λ h. elim (Result-cases (to_pod_spec serde show_f64 self vals)) [
        | inl found ↦ found
        | inr (panic, e) ↦ absurd (h (iff.0 e))
      ],
    )
