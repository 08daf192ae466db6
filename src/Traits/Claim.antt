-- ===== src/Traits/Claim.antt =====
-- The claim that a volume mounter provisions.
use Prim.Native.Char.{code}
use rudr.Prelude.{
  ℕ, ◌+◌, String, Bool, true, false, ◌&&◌, Option, none, some, List, [], ◌∷◌, and_then, map_some,
  unwrap_or, find, find_map, if◌then◌else◌, nat_eq, leb,
}
use rudr.BTreeMap
use rudr.BTreeMap.{BTreeMap}
use rudr.Component.{AccessMode, rw, ro, SharingPolicy, shared, exclusive, Disk, Volume, Container}
use rudr.Traits.{VolumeMounter, OwnerRefs}

pub record PersistentVolumeClaim : Type 0 where
  pub name : String
  pub labels : BTreeMap String
  pub owner_references : OwnerRefs
  pub access_modes : List String
  pub storage_class_name : String
  pub requests : BTreeMap String

abbrev pub default_volume_size : String
default_volume_size = "200M"

-- `eq_ignore_ascii_case`
lower : ℕ → ℕ
lower c = if leb b'A' c && leb c b'Z' then c + 32 else c

unfoldable pub eq_ignore_ascii_case : String → String → Bool
unfolding lower
eq_ignore_ascii_case String.[] String.[] = true
eq_ignore_ascii_case (String.◌∷◌ c s) (String.◌∷◌ d t) =
    nat_eq (lower (code c)) (lower (code d)) && eq_ignore_ascii_case s t
eq_ignore_ascii_case _ _ = false

unfoldable pub find_volume : VolumeMounter → Option Volume
unfolding eq_ignore_ascii_case
find_volume self =
    find_map
      (λ (c : Container).
        and_then c.resources.volumes
          (λ vols. find (λ (v : Volume). eq_ignore_ascii_case self.volume_name v.name) vols))
      self.component.containers

access_of : AccessMode → SharingPolicy → String
access_of ro _ = "ReadOnlyMany"
access_of rw shared = "ReadWriteMany"
access_of rw exclusive = "ReadWriteOnce"

unfoldable pub mount_policy : Option Volume → String
unfolding access_of
mount_policy none = "ReadWriteOnce"
mount_policy (some vol) = access_of vol.access_mode vol.sharing_policy

unfoldable pub volume_mounter_labels : VolumeMounter → BTreeMap String
volume_mounter_labels self = BTreeMap.insert "trait" "volume-mounter" (
    BTreeMap.insert "instance-name" self.instance_name
      (BTreeMap.insert "component-name" self.component_name (BTreeMap.insert "app" self.name [])))

unfoldable pub to_pvc : VolumeMounter → PersistentVolumeClaim
unfolding find_volume mount_policy volume_mounter_labels
to_pvc self =
    let attach_to = find_volume self in
    let size =
      unwrap_or (and_then attach_to (λ (v : Volume). map_some (λ (d : Disk). d.required) v.disk))
        default_volume_size in
    record {
      name = self.volume_name;
      labels = volume_mounter_labels self;
      owner_references = self.owner_ref;
      access_modes = mount_policy attach_to ∷ [];
      storage_class_name = self.storage_class;
      requests = BTreeMap.insert "storage" size [];
    }
