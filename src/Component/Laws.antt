-- ===== src/Component/Laws.antt =====
-- The mounts of a pod against its volumes, and when the conversion panics.
use mathlib.Core.List.{map-append}
use rudr.Prelude.{
  ℕ, suc, String, ◌≡◌, refl, inl, inr, Option, List, [], ◌∷◌, ◌++◌, map, ok, ◌>>=◌, Result-cases,
  arith, unwrap_or, concat_map,
}
use rudr.Json.{Serde}
use rudr.Parameter.{ParamMap}
use rudr.Component.{Volume, ConfigFile, Container, Component}
use rudr.Component.Containers.{
  configured_volume, configured_volumes, resource_volume, none_if_empty, volume_mounts,
  to_container, convert_all, to_containers,
}
use rudr.Component.PodSpec.{config_volumes, volume_source, container_volumes, to_pod_spec}
use rudr.Component.Kube

abbrev pub mounts_of : Kube.Container → List Kube.VolumeMount
mounts_of k = unwrap_or k.volume_mounts []

abbrev pub mount_names : List Kube.VolumeMount → List String
mount_names = map (λ (m : Kube.VolumeMount). m.name)

abbrev pub volume_names : List Kube.Volume → List String
volume_names = map (λ (v : Kube.Volume). v.name)

unwrap-none_if_empty : (ms : List Kube.VolumeMount) → unwrap_or (none_if_empty ms) [] ≡ ms
unfolding none_if_empty
unwrap-none_if_empty [] = refl
unwrap-none_if_empty (m ∷ ms) = refl

configured_names :
    (c : Container) (i : ℕ) (confs : List ConfigFile) (ms : List Kube.VolumeMount)
    → configured_volumes c i confs ≡ ok ms
    → mount_names ms ≡ volume_names (config_volumes c i confs)
unfolding configured_volumes configured_volume config_volumes
configured_names c i [] ms h = ground arith
configured_names c i (conf ∷ confs) ms h =
    elim (Result-cases (configured_volumes c (suc i) confs)) [
      | inl (ms', e) ↦ ground (arith, configured_names c (suc i) confs ms' e)
      | inr (p, e) ↦ ground arith
    ]

resource_names :
    (vs : List Volume) → mount_names (map resource_volume vs) ≡ volume_names (map volume_source vs)
unfolding resource_volume volume_source
resource_names [] = refl
resource_names (v ∷ vs) = ground (arith, resource_names vs)

volume_mounts_names :
    (c : Container) (ms : Option (List Kube.VolumeMount))
    → volume_mounts c ≡ ok ms
    → mount_names (unwrap_or ms []) ≡ volume_names (container_volumes c)
unfolding volume_mounts container_volumes
volume_mounts_names c ms h = elim (Result-cases (configured_volumes c 0 (unwrap_or c.config []))) [
  | inl (cs, e) ↦ ground (
    arith,
    configured_names c 0 (unwrap_or c.config []) cs e,
    resource_names (unwrap_or c.resources.volumes []),
    unwrap-none_if_empty (cs ++ map resource_volume (unwrap_or c.resources.volumes [])),
    map-append (λ (m : Kube.VolumeMount). m.name) cs
        (map resource_volume (unwrap_or c.resources.volumes [])),
    map-append (λ (v : Kube.Volume). v.name) (config_volumes c 0 (unwrap_or c.config []))
        (map volume_source (unwrap_or c.resources.volumes [])),
  )
  | inr (p, e) ↦ cc (rw (e, ◌>>=◌) at h)
]

module _ (serde : Serde) (show_f64 : ℕ → String) (vals : ParamMap) where
  to_container_names :
      (c : Container) (k : Kube.Container)
      → to_container serde show_f64 vals c ≡ ok k
      → mount_names (mounts_of k) ≡ volume_names (container_volumes c)
  unfolding to_container
  to_container_names c k h = elim (Result-cases (volume_mounts c)) [
    | inl (ms, e) ↦ ground (arith, volume_mounts_names c ms e)
    | inr (p, e) ↦ ground arith
  ]

  convert_all_names :
      (cs : List Container) (ks : List Kube.Container)
      → convert_all serde show_f64 vals cs ≡ ok ks
      → concat_map (λ k. mount_names (mounts_of k)) ks
        ≡ volume_names (concat_map container_volumes cs)
  unfolding convert_all
  convert_all_names [] ks h = ground arith
  convert_all_names (c ∷ cs) ks h = elim (Result-cases (to_container serde show_f64 vals c)) [
    | inl (k, first) ↦ elim (Result-cases (convert_all serde show_f64 vals cs)) [
      | inl (ks', rest) ↦ ground (
        arith,
        to_container_names c k first,
        convert_all_names cs ks' rest,
        map-append (λ (v : Kube.Volume). v.name) (container_volumes c)
            (concat_map container_volumes cs),
      )
      | inr (p, rest) ↦ ground arith
    ]
    | inr (p, first) ↦ ground arith
  ]

-- Where a component converts to a pod, the volume mounts of the pod's containers name, in order,
-- exactly its volumes: every mount has its volume, and no volume is left without a mount.
pub mount_names-to_pod_spec :
    (serde : Serde) (show_f64 : ℕ → String) (self : Component) (vals : ParamMap)
    (pod : Kube.PodSpec)
    → to_pod_spec serde show_f64 self vals ≡ ok pod
    → concat_map (λ k. mount_names (mounts_of k)) pod.containers
      ≡ volume_names (unwrap_or pod.volumes [])
unfolding to_pod_spec to_containers
mount_names-to_pod_spec serde show_f64 self vals pod h =
    elim (Result-cases (convert_all serde show_f64 vals self.containers)) [
      | inl (ks, e) ↦ ground (arith, convert_all_names serde show_f64 vals self.containers ks e)
      | inr (p, e) ↦ ground arith
    ]
