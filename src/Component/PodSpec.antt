-- ===== src/Component/PodSpec.antt =====
-- `to_pod_spec`: the containers of the pod and the volumes that they mount.
use rudr.Prelude.{
  ℕ, suc, String, Bool, false, Option, none, some, List, [], ◌∷◌, ◌++◌, map, ◌<>◌, Result, ok,
  ◌>>=◌, and_then, unwrap_or, concat_map, if◌then◌else◌,
}
use rudr.StdText.{show_nat}
use rudr.Json.{Serde}
use rudr.Parameter.{ParamMap}
use rudr.Component.{Disk, Volume, ConfigFile, Container, Component, to_node_selector}
use rudr.Component.Containers.{Panic, is_read_only, to_containers}
use rudr.Component.Kube

unfoldable pub config_volumes : Container → ℕ → List ConfigFile → List Kube.Volume
config_volumes container i [] = []
config_volumes container i (_ ∷ confs) =
    record {
      name = container.name <> show_nat i;
      config_map = some (some (container.name <> show_nat i));
      empty_dir = none;
      persistent_volume_claim = none;
    }
    ∷ config_volumes container (suc i) confs

abbrev pub is_ephemeral : Option Disk → Bool
is_ephemeral none = false
is_ephemeral (some d) = d.ephemeral

-- An ephemeral volume is an empty directory, any other a claim of its name.
unfoldable pub volume_source : Volume → Kube.Volume
volume_source v =
    if is_ephemeral v.disk
    then record {
      name = v.name;
      config_map = none;
      empty_dir = some (and_then v.disk (λ d. some d.required));
      persistent_volume_claim = none;
    }
    else record {
      name = v.name;
      config_map = none;
      empty_dir = none;
      persistent_volume_claim =
          some (record { claim_name = v.name; read_only = some (is_read_only v.access_mode) });
    }

-- What one container pushes to `vols`.
unfoldable pub container_volumes : Container → List Kube.Volume
unfolding config_volumes volume_source
container_volumes container =
    config_volumes container 0 (unwrap_or container.config [])
    ++ map volume_source (unwrap_or container.resources.volumes [])

unfoldable pub image_pull_secrets : Component → List (Option String)
image_pull_secrets self =
    concat_map (λ (c : Container). elim c.image_pull_secret [ none ↦ [] | some n ↦ some n ∷ [] ])
      self.containers

module _ (serde : Serde) (show_f64 : ℕ → String) where
  unfoldable pub to_pod_spec : Component → ParamMap → Result Panic Kube.PodSpec
  unfolding container_volumes image_pull_secrets
  to_pod_spec self param_vals = do
    containers ← to_containers serde show_f64 self param_vals
    ok (record {
      containers = containers;
      image_pull_secrets = some (image_pull_secrets self);
      node_selector = to_node_selector self;
      volumes = some (concat_map container_volumes self.containers);
      restart_policy = none;
    })

  unfoldable pub to_pod_spec_with_policy : Component → ParamMap → String → Result Panic Kube.PodSpec
  unfolding to_pod_spec
  to_pod_spec_with_policy self param_vals restart_policy = do
    pod_spec ← to_pod_spec self param_vals
    ok (record pod_spec { restart_policy = some restart_policy })
