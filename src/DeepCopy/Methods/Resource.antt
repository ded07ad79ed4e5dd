-- ===== src/DeepCopy/Methods/Resource.antt =====
-- api/v1beta1/zz_generated.deepcopy.go: what DeepCopyInto does for every kind of resource and for
-- every list of resources.
use opsgenie_operator.DeepCopy.Types.{Layout, Resource, ResourceList}
use opsgenie_operator.DeepCopy.Objects.{Object}
use opsgenie_operator.DeepCopy.Memory.{Stored, M, pure, ◌>>=◌, copy_slice}
use opsgenie_operator.DeepCopy.Library.{Library}

module _ {layout : Layout} (lib : Library layout) where
  module _ {Spec Status : Type 0} where
    unfoldable pub resource_deep_copy_into :
        (Spec → M (Object layout) Spec)
        → (Status → M (Object layout) Status)
        → Resource layout Spec Status
        → M (Object layout) (Resource layout Spec Status)
    resource_deep_copy_into copy_spec copy_status x = do
      metadata ← lib.copy_object_meta x.metadata
      spec ← copy_spec x.spec
      status ← copy_status x.status
      pure (record x { metadata = metadata; spec = spec; status = status })

  module _ {Item : Type 0} ⦃stored : Stored (Object layout) Item⦄ where
    unfoldable pub resource_list_deep_copy_into :
        (Item → M (Object layout) Item)
        → ResourceList layout Item
        → M (Object layout) (ResourceList layout Item)
    resource_list_deep_copy_into copy_item x = do
      metadata ← lib.copy_list_meta x.metadata
      items ← copy_slice copy_item x.items
      pure (record x { metadata = metadata; items = items })
