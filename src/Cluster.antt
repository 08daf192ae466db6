-- ===== src/Cluster.antt =====
-- What the controller sees of Kubernetes: the metadata of objects, owner references, and the errors
-- of the `kube` crate, by their API reason and their text.
use rudr.Prelude.{String, Bool, true, false, ◌==◌, Option, none, some, if◌then◌else◌}
use rudr.BTreeMap.{BTreeMap}

pub record OwnerReference : Type 0 where
  pub api_version : String
  pub kind : String
  pub uid : String
  pub controller : Option Bool
  pub block_owner_deletion : Option Bool
  pub name : String

-- The fields of `ObjectMeta` that the sources read or write.
pub record ObjectMeta : Type 0 where
  pub name : String
  pub namespace : Option String
  pub uid : Option String
  pub resource_version : Option String
  pub annotations : BTreeMap String

-- `api_reason` is the reason of `api_error()`, `text` what `to_string` prints.
pub record KubeError : Type 0 where
  pub api_reason : Option String
  pub text : String

abbrev pub has_reason : String → KubeError → Bool
has_reason reason e = elim e.api_reason [ none ↦ false | some r ↦ r == reason ]

-- `text.contains(part)`: the part begins at some character.
unfoldable pub begins : String → String → Bool
begins String.[] s = true
begins (String.◌∷◌ c p) String.[] = false
begins (String.◌∷◌ c p) (String.◌∷◌ d s) =
    if String.◌∷◌ c "" == String.◌∷◌ d "" then begins p s else false

unfoldable pub contains : String → String → Bool
unfolding begins
contains part String.[] = begins part ""
contains part (String.◌∷◌ c s) =
    let later = contains part s in if begins part (String.◌∷◌ c s) then true else later

abbrev pub oam_api_version : String
oam_api_version = "core.oam.dev/v1alpha1"
