-- ===== src/DeepCopy/Methods/Service.antt =====
-- api/v1beta1/zz_generated.deepcopy.go: the methods of OpsgenieService and of the structs in it.
use opsgenie_operator.Prelude.{String, Option}
use opsgenie_operator.Api.Service.{OpsgenieServiceStatus}
use opsgenie_operator.DeepCopy.Types.{
  Layout, OpsgenieServiceSpec, OpsgenieService, OpsgenieServiceList,
}
use opsgenie_operator.DeepCopy.Objects.{Object}
use opsgenie_operator.DeepCopy.Memory.{Pointer, M, pure, ◌>>=◌, copy_flat, copy_pointer}
use opsgenie_operator.DeepCopy.Arrays.{reference_stored, string_stored, service_status_stored}
use opsgenie_operator.DeepCopy.PartArrays.{service_spec_stored}
use opsgenie_operator.DeepCopy.KindArrays.{service_stored, service_list_stored}
use opsgenie_operator.DeepCopy.Library.{Library, copy_reference}
use opsgenie_operator.DeepCopy.Methods.Resource.{
  resource_deep_copy_into, resource_list_deep_copy_into,
}

module _ {layout : Layout} where
  unfoldable pub service_spec_deep_copy_into :
      OpsgenieServiceSpec → M (Object layout) OpsgenieServiceSpec
  service_spec_deep_copy_into x = do
    team_ref ← copy_reference x.team_ref
    tags ← copy_flat String x.tags
    pure (record x { team_ref = team_ref; tags = tags })

  unfoldable pub service_spec_deep_copy : Option Pointer → M (Object layout) (Option Pointer)
  service_spec_deep_copy = copy_pointer service_spec_deep_copy_into

module _ {layout : Layout} (lib : Library layout) where
  unfoldable pub service_status_deep_copy_into :
      OpsgenieServiceStatus → M (Object layout) OpsgenieServiceStatus
  service_status_deep_copy_into x = do
    last_synced_time ← lib.copy_time x.last_synced_time
    pure (record x { last_synced_time = last_synced_time })

  unfoldable pub service_status_deep_copy : Option Pointer → M (Object layout) (Option Pointer)
  service_status_deep_copy = copy_pointer service_status_deep_copy_into

  unfoldable pub service_deep_copy_into :
      OpsgenieService layout → M (Object layout) (OpsgenieService layout)
  service_deep_copy_into =
      resource_deep_copy_into lib service_spec_deep_copy_into service_status_deep_copy_into

  unfoldable pub service_deep_copy : Option Pointer → M (Object layout) (Option Pointer)
  service_deep_copy = copy_pointer service_deep_copy_into

  unfoldable pub service_list_deep_copy_into :
      OpsgenieServiceList layout → M (Object layout) (OpsgenieServiceList layout)
  service_list_deep_copy_into = resource_list_deep_copy_into lib service_deep_copy_into

  unfoldable pub service_list_deep_copy : Option Pointer → M (Object layout) (Option Pointer)
  service_list_deep_copy = copy_pointer service_list_deep_copy_into
