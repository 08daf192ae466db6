-- ===== src/Gvk/Tests.antt =====
-- Examples of group, version and kind.
use rudr.Prelude.{◌≡◌, refl, ◌↔◌, ok, err}
use rudr.Gvk.{
  GroupVersionKind, missing_kind, from_str, display, split_first, split_group, split_kind,
}
use rudr.Gvk.RoundTrip.{Lacks, from_str_iff}

abbrev deployment : GroupVersionKind
deployment = record { group = "apps"; version = "v1"; kind = "Deployment" }

parsed : from_str "apps/v1.Deployment" ≡ ok deployment
unfolding from_str split_group split_kind split_first
parsed = refl

without_kind : from_str "apps/v1" ≡ err missing_kind
unfolding from_str split_group split_kind split_first
without_kind = refl

from_str_iff_example :
    (from_str "apps/v1.Deployment" ≡ ok deployment)
    ↔ (Lacks b'/' "apps" × Lacks b'.' "v1" × (display deployment ≡ "apps/v1.Deployment"))
from_str_iff_example = from_str_iff "apps/v1.Deployment" deployment
