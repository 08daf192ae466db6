-- ===== src/Component/Configs.antt =====
-- `evaluate_configs`: the config maps of a component, by name, and the files in them.
pub mod Laws
use rudr.Prelude.{ℕ, suc, String, Option, List, [], ◌∷◌, ◌<>◌, Result, ok, ◌>>=◌, unwrap_or, ok_or}
use rudr.BTreeMap
use rudr.BTreeMap.{BTreeMap}
use rudr.StdText.{file_name, show_nat}
use rudr.Json.{Serde}
use rudr.Parameter.{ParamMap, resolve_value_string}
use rudr.Component.{ConfigFile, Container, Component}
use rudr.Component.Containers.{Panic, panic}

abbrev pub ConfigMaps : Type 0
ConfigMaps = BTreeMap (BTreeMap String)

module _ (serde : Serde) (resolved_vals : ParamMap) where
  unfoldable pub config_value : ConfigFile → Result Panic String
  config_value conf =
      ok_or panic (resolve_value_string serde resolved_vals conf.from_param conf.value)

  unfoldable pub evaluate_from :
      Container → ℕ → List ConfigFile → ConfigMaps → Result Panic ConfigMaps
  unfolding config_value
  evaluate_from container i [] configs = ok configs
  evaluate_from container i (conf ∷ confs) configs = do
    filename ← ok_or panic (file_name conf.path)
    value ← config_value conf
    evaluate_from container (suc i) confs
        (BTreeMap.insert (container.name <> show_nat i) (BTreeMap.insert filename value []) configs)

  unfoldable pub evaluate_containers : List Container → ConfigMaps → Result Panic ConfigMaps
  unfolding evaluate_from
  evaluate_containers [] configs = ok configs
  evaluate_containers (c ∷ cs) configs = do
    configs' ← evaluate_from c 0 (unwrap_or c.config []) configs
    evaluate_containers cs configs'

  unfoldable pub evaluate_configs : Component → Result Panic ConfigMaps
  unfolding evaluate_containers
  evaluate_configs self = evaluate_containers self.containers []
