-- ===== src/Gvk.antt =====
-- src/schematic.rs: `GroupVersionKind`, its parser and its printer.
pub mod RoundTrip
mod Tests
use Prim.Native.Char.{code}
use rudr.Prelude.{
  ℕ, String, Option, none, some, Result, ok, err, ◌<>◌, nat_eq, map_some, if◌then◌else◌,
}

pub record GroupVersionKind : Type 0 where
  pub group : String
  pub version : String
  pub kind : String

pub data GvkError : Type 0 where
  missing_version_and_kind missing_kind : GvkError

-- `splitn(2, sep)` has two parts exactly where `sep` occurs: before and after its first occurrence.
unfoldable pub split_first : ℕ → String → Option (String × String)
split_first sep String.[] = none
split_first sep (String.◌∷◌ c s) =
    let later = map_some (λ (p : String × String). (String.◌∷◌ c p.0, p.1)) (split_first sep s) in
    if nat_eq (code c) sep then some ("", s) else later

split_kind : String → Option (String × String) → Result GvkError GroupVersionKind
split_kind group none = err missing_kind
split_kind group (some (version, kind)) =
    ok (record { group = group; version = version; kind = kind })

split_group : Option (String × String) → Result GvkError GroupVersionKind
unfolding split_kind
split_group none = err missing_version_and_kind
split_group (some (group, vk)) = split_kind group (split_first b'.' vk)

unfoldable pub from_str : String → Result GvkError GroupVersionKind
unfolding split_group split_first
from_str gvp = split_group (split_first b'/' gvp)

-- `Display`
unfoldable pub display : GroupVersionKind → String
display gvk = gvk.group <> ("/" <> (gvk.version <> ("." <> gvk.kind)))
