-- ===== src/DeepCopy/Documented.antt =====
-- What the documentation of the Kubernetes libraries and of Go says of these: `DeepCopyInto` of a
-- library's type is a deep copy, of a time it is an assignment, and `range` gives each key once.
use opsgenie_operator.Prelude.{Option}
use opsgenie_operator.Kube.{LocalObjectReference}
use opsgenie_operator.DeepCopy.Types.{Layout}
use opsgenie_operator.DeepCopy.Objects.{Object}
use opsgenie_operator.DeepCopy.Arrays.{reference_stored}
use opsgenie_operator.DeepCopy.Memory.{Pointer, pure}
use opsgenie_operator.DeepCopy.Equal.{Equal, IsDeepCopy, Plain, PointerEqual}
use opsgenie_operator.DeepCopy.Copies.{pure-IsDeepCopy}
use opsgenie_operator.DeepCopy.Elements.{copy_pointer-IsDeepCopy}
use opsgenie_operator.DeepCopy.Maps.{IsRange}
use opsgenie_operator.DeepCopy.Library.{Library, copy_reference}

pub record Documented {layout : Layout} (lib : Library layout) : Type 1 where
  pub ObjectMetaEqual : Equal (Object layout) layout.ObjectMeta
  pub ListMetaEqual : Equal (Object layout) layout.ListMeta
  pub object_meta : IsDeepCopy ObjectMetaEqual lib.copy_object_meta
  pub list_meta : IsDeepCopy ListMetaEqual lib.copy_list_meta
  pub time : IsDeepCopy Plain lib.copy_time
  pub range : IsRange lib.range

module _ {layout : Layout} where
  abbrev pub ReferenceEqual : Equal (Object layout) (Option Pointer)
  ReferenceEqual = PointerEqual {A = LocalObjectReference} Plain

  pub copy_reference-IsDeepCopy : IsDeepCopy {Object = Object layout} ReferenceEqual copy_reference
  unfolding copy_reference
  copy_reference-IsDeepCopy =
      copy_pointer-IsDeepCopy {A = LocalObjectReference} Plain pure pure-IsDeepCopy
