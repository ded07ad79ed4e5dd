-- ===== src/DeepCopy/Deep/Resource.antt =====
-- The copies of resources and of their lists are deep if those of specs and statuses are.
use opsgenie_operator.Prelude.{refl}
use opsgenie_operator.DeepCopy.Types.{Layout, Resource, ResourceList}
use opsgenie_operator.DeepCopy.Objects.{Object}
use opsgenie_operator.DeepCopy.Memory.{Stored, M, copy_slice}
use opsgenie_operator.DeepCopy.Library.{Library}
use opsgenie_operator.DeepCopy.Documented.{Documented}
use opsgenie_operator.DeepCopy.Equal.{Equal, IsDeepCopy, SliceEqual}
use opsgenie_operator.DeepCopy.Elements.{copy_slice-IsDeepCopy}
use opsgenie_operator.DeepCopy.Fields.{
  TwoFields, copy_two-IsDeepCopy, ThreeFields, copy_three-IsDeepCopy,
}
use opsgenie_operator.DeepCopy.Methods.Resource.{
  resource_deep_copy_into, resource_list_deep_copy_into,
}

module _ {layout : Layout} {lib : Library layout} (doc : Documented lib) where
  module _ {Spec Status : Type 0} (E : Equal (Object layout) Spec)
      (F : Equal (Object layout) Status) where
    abbrev pub ResourceEqual : Equal (Object layout) (Resource layout Spec Status)
    ResourceEqual =
        ThreeFields (λ x. x.metadata) (λ x. x.spec) (λ x. x.status)
          (λ x a b c. record x { metadata = a; spec = b; status = c }) doc.ObjectMetaEqual E F

    pub resource_deep_copy_into-IsDeepCopy :
        (copy_spec : Spec → M (Object layout) Spec)
        (copy_status : Status → M (Object layout) Status)
        → IsDeepCopy E copy_spec
        → IsDeepCopy F copy_status
        → IsDeepCopy ResourceEqual (resource_deep_copy_into lib copy_spec copy_status)
    unfolding resource_deep_copy_into
    resource_deep_copy_into-IsDeepCopy copy_spec copy_status deep_spec deep_status =
        copy_three-IsDeepCopy (λ x. x.metadata) (λ x. x.spec) (λ x. x.status)
          (λ x a b c. record x { metadata = a; spec = b; status = c }) doc.ObjectMetaEqual E F
          lib.copy_object_meta copy_spec copy_status
          (record { first = λ x a b c. refl; second = λ x a b c. refl; third = λ x a b c. refl })
          doc.object_meta deep_spec deep_status

  module _ {Item : Type 0} ⦃stored : Stored (Object layout) Item⦄
      (E : Equal (Object layout) Item) where
    abbrev pub ResourceListEqual : Equal (Object layout) (ResourceList layout Item)
    ResourceListEqual =
        TwoFields (λ x. x.metadata) (λ x. x.items) (λ x a b. record x { metadata = a; items = b })
          doc.ListMetaEqual (SliceEqual E)

    pub resource_list_deep_copy_into-IsDeepCopy :
        (copy_item : Item → M (Object layout) Item)
        → IsDeepCopy E copy_item
        → IsDeepCopy ResourceListEqual (resource_list_deep_copy_into lib copy_item)
    unfolding resource_list_deep_copy_into
    resource_list_deep_copy_into-IsDeepCopy copy_item deep =
        copy_two-IsDeepCopy (λ x. x.metadata) (λ x. x.items)
          (λ x a b. record x { metadata = a; items = b }) doc.ListMetaEqual (SliceEqual E)
          lib.copy_list_meta (copy_slice copy_item) (λ x a b. refl) (λ x a b. refl) doc.list_meta
          (copy_slice-IsDeepCopy E copy_item deep)
