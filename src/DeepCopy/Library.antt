-- ===== src/DeepCopy/Library.antt =====
-- What the methods call of the Kubernetes libraries and of Go's maps, which are parameters.
use opsgenie_operator.Prelude.{String, Option}
use opsgenie_operator.Prelude.Dict.{Dict}
use opsgenie_operator.Kube.{Time, LocalObjectReference}
use opsgenie_operator.DeepCopy.Types.{Layout}
use opsgenie_operator.DeepCopy.Objects.{Object}
use opsgenie_operator.DeepCopy.Arrays.{reference_stored}
use opsgenie_operator.DeepCopy.Memory.{Pointer, M, pure, copy_pointer}

-- `DeepCopyInto` of `metav1.ObjectMeta`, `metav1.ListMeta` and `metav1.Time`, and the order of `range`.
pub record Library (layout : Layout) : Type 0 where
  pub copy_object_meta : layout.ObjectMeta → M (Object layout) layout.ObjectMeta
  pub copy_list_meta : layout.ListMeta → M (Object layout) layout.ListMeta
  pub copy_time : Time → M (Object layout) Time
  pub range : Dict String → Dict String

module _ {layout : Layout} where
  -- `if in.F != nil { *out = new(v1.LocalObjectReference); **out = **in }`
  unfoldable pub copy_reference : Option Pointer → M (Object layout) (Option Pointer)
  copy_reference = copy_pointer (pure {A = LocalObjectReference})
