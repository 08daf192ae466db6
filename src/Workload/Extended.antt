-- ===== src/Workload/Extended.antt =====
-- src/workload_type/extended_workload: OpenFaaS functions, and workload types that the program does
-- not know, whose object is given by the setting `spec`.
-- `to_lowercase` of the standard library is a parameter.
use Prim.Native.Char.{Char, code}
use mathlib.Core.List.{reverse}
use rudr.Prelude.{
  String, ◌<>◌, ◌==◌, Bool, true, false, ◌||◌, Option, none, some, List, [], ◌∷◌, map, Result, ok,
  err, ◌>>=◌, ok_or, and_then, map_some, unwrap_or, if◌then◌else◌, nat_eq, ◌&&◌,
}
use rudr.BTreeMap
use rudr.BTreeMap.{BTreeMap}
use rudr.StdText.{chars, text}
use rudr.Json.{Value, Serde}
use rudr.Parameter.{ParamMap, resolve_value}
use rudr.Component.{WorkloadSetting, get_workload_setting}
use rudr.HealthScope.{KubeOwner, convert_owner_ref}
use rudr.Gvk.{GroupVersionKind, from_str}
use rudr.Client.{
  OwnerRefs, FunctionObject, CustomObject, function, custom_object, Resource, functions, custom,
  create, patch, Server, Error, message, Action, request, fail, panicked,
}
use rudr.Workload.{WorkloadMetadata, get_metadata_setting}

-- One element of the setting `environment`: an entry is made only where `fromParam` stands, and its
-- value is that of the parameter, else `value`.
unfoldable pub real_value : Serde → ParamMap → List (String × Value) → Option Value
real_value serde params mp = and_then (BTreeMap.get "fromParam" mp) (λ fp.
    and_then (serde.as_str fp) (λ s. resolve_value params (some s) (BTreeMap.get "value" mp)))

unfoldable pub environment_entry :
    Serde → ParamMap → List (String × Value) → Option (String × String)
unfolding real_value
environment_entry serde params mp = and_then (BTreeMap.get "name" mp) (λ k.
    and_then (serde.as_str k) (λ s.
      and_then (real_value serde params mp)
        (λ rv. map_some (λ (v : String). (s, v)) (serde.as_str rv))))

abbrev pub insert_entry : Option (String × String) → BTreeMap String → BTreeMap String
insert_entry none envs = envs
insert_entry (some (k, v)) envs = BTreeMap.insert k v envs

-- The loop over the elements; one that is not an object is skipped.
unfoldable pub collect_environment :
    Serde → ParamMap → List Value → BTreeMap String → BTreeMap String
unfolding environment_entry
collect_environment serde params [] envs = envs
collect_environment serde params (element ∷ array) envs =
    collect_environment serde params array
      (insert_entry (and_then (serde.as_object element) (environment_entry serde params)) envs)

abbrev pub some_unless_empty : BTreeMap String → Option (BTreeMap String)
some_unless_empty [] = none
some_unless_empty (e ∷ envs) = some (e ∷ envs)

unfoldable pub extract_environment : Serde → WorkloadMetadata → Option (BTreeMap String)
unfolding collect_environment get_metadata_setting
extract_environment serde meta =
    and_then (and_then (get_metadata_setting meta "environment") serde.as_array)
      (λ array. some_unless_empty (collect_environment serde meta.params array []))

unfoldable pub kube_owners : OwnerRefs → List KubeOwner
unfolding convert_owner_ref
kube_owners owner_ref = map convert_owner_ref (unwrap_or owner_ref [])

unfoldable pub get_kube_faas : Serde → WorkloadMetadata → Result Error FunctionObject
unfolding extract_environment kube_owners get_metadata_setting
get_kube_faas serde meta = do
  image ←
      ok_or (message "image is required in workload setting and must be string")
        (and_then (get_metadata_setting meta "image") serde.as_str)
  ok (record {
    name = meta.instance_name;
    owner_references = kube_owners meta.owner_ref;
    image = image;
    handler = and_then (get_metadata_setting meta "handler") serde.as_str;
    environment = extract_environment serde meta;
  })

-- `Others::new`; one message stands for the two of the parser.
unfoldable pub new_others :
    WorkloadMetadata → String → Result Error (WorkloadMetadata × GroupVersionKind)
unfolding from_str
new_others meta type_ = elim (from_str type_) [
  | err _ ↦ err (message "missing version or kind")
  | ok gvk ↦ elim (get_workload_setting meta.definition "spec") [
    | none ↦ err (message "unknown workload type must have spec in workloadSettings")
    | some _ ↦ ok (meta, gvk)
  ]
]

-- `get_object`, which unwraps the setting.
unfoldable pub get_object : WorkloadMetadata → GroupVersionKind → Option CustomObject
get_object meta gvk =
    map_some
      (λ (item : WorkloadSetting). record {
        api_version = gvk.group <> ("/" <> gvk.version);
        kind = gvk.kind;
        name = meta.instance_name;
        owner_references = meta.owner_ref;
        spec = item.value;
      })
      (get_workload_setting meta.definition "spec")

unfoldable pub ends_with : String → String → Bool
ends_with suffix word = starts (reverse (chars suffix)) (reverse (chars word))
  where
    starts : List Char → List Char → Bool
    starts [] w = true
    starts (c ∷ p) [] = false
    starts (c ∷ p) (d ∷ w) = nat_eq (code c) (code d) && starts p w

-- `pop`
unfoldable pub without_last : String → String
without_last word = text (reverse (drop_first (reverse (chars word))))
  where
    drop_first : List Char → List Char
    drop_first [] = []
    drop_first (c ∷ cs) = cs

unfoldable pub form_plural : String → String
unfolding ends_with without_last
form_plural word =
    if word == ""
    then word
    else if ends_with "y" word
    then without_last word <> "ies"
    else if ends_with "s" word || ends_with "c" word || ends_with "ch" word || ends_with "sh" word
    then word <> "es"
    else word <> "s"

module _ (serde : Serde) (to_lowercase : String → String) (server : Server) where
  module _ (meta : WorkloadMetadata) where
    unfoldable pub openfaas_add : Action (Unit {0})
    unfolding get_kube_faas
    openfaas_add log = elim (get_kube_faas serde meta) [
      | err e ↦ fail e log
      | ok kubefaas ↦
          request server.accept (create meta.namespace functions (function kubefaas)) log
    ]

    unfoldable pub openfaas_modify : Action (Unit {0})
    unfolding get_kube_faas
    openfaas_modify log = elim (get_kube_faas serde meta) [
      | err e ↦ fail e log
      | ok kubefaas ↦
          request server.accept
            (patch meta.namespace functions meta.instance_name (function kubefaas)) log
    ]

  module _ (meta : WorkloadMetadata) (gvk : GroupVersionKind) where
    abbrev resource : Resource
    resource = custom gvk.group gvk.version (form_plural (to_lowercase gvk.kind))

    unfoldable pub others_add : Action (Unit {0})
    unfolding get_object
    others_add log = elim (get_object meta gvk) [
      | none ↦ fail panicked log
      | some object ↦
          request server.accept (create meta.namespace resource (custom_object object)) log
    ]

    unfoldable pub others_modify : Action (Unit {0})
    unfolding get_object
    others_modify log = elim (get_object meta gvk) [
      | none ↦ fail panicked log
      | some object ↦
          request server.accept
            (patch meta.namespace resource meta.instance_name (custom_object object)) log
    ]
