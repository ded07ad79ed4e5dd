-- ===== src/DeepCopy/Deep/Service.antt =====
-- The methods of OpsgenieService and of the structs in it make deep copies.
use opsgenie_operator.Prelude.{String, refl}
use opsgenie_operator.Api.Service.{OpsgenieServiceStatus}
use opsgenie_operator.DeepCopy.Types.{
  Layout, OpsgenieServiceSpec, OpsgenieService, OpsgenieServiceList,
}
use opsgenie_operator.DeepCopy.Objects.{Object}
use opsgenie_operator.DeepCopy.Memory.{copy_flat}
use opsgenie_operator.DeepCopy.Arrays.{reference_stored, string_stored, service_status_stored}
use opsgenie_operator.DeepCopy.PartArrays.{service_spec_stored}
use opsgenie_operator.DeepCopy.KindArrays.{service_stored, service_list_stored}
use opsgenie_operator.DeepCopy.Library.{Library, copy_reference}
use opsgenie_operator.DeepCopy.Equal.{Equal, IsDeepCopy, Plain, SliceEqual}
use opsgenie_operator.DeepCopy.Flat.{copy_flat-IsDeepCopy}
use opsgenie_operator.DeepCopy.Fields.{
  OneField, copy_one-IsDeepCopy, TwoFields, copy_two-IsDeepCopy,
}
use opsgenie_operator.DeepCopy.Documented.{Documented, ReferenceEqual, copy_reference-IsDeepCopy}
use opsgenie_operator.DeepCopy.Deep.Resource.{
  ResourceEqual, ResourceListEqual, resource_deep_copy_into-IsDeepCopy,
  resource_list_deep_copy_into-IsDeepCopy,
}
use opsgenie_operator.DeepCopy.Methods.Service.{
  service_spec_deep_copy_into, service_status_deep_copy_into, service_deep_copy_into,
  service_list_deep_copy_into,
}

module _ {layout : Layout} where
  abbrev pub ServiceSpecEqual : Equal (Object layout) OpsgenieServiceSpec
  ServiceSpecEqual =
      TwoFields (λ x. x.team_ref) (λ x. x.tags) (λ x a b. record x { team_ref = a; tags = b })
        ReferenceEqual (SliceEqual {A = String} Plain)

  pub service_spec_deep_copy_into-IsDeepCopy :
      IsDeepCopy {Object = Object layout} ServiceSpecEqual service_spec_deep_copy_into
  unfolding service_spec_deep_copy_into
  service_spec_deep_copy_into-IsDeepCopy =
      copy_two-IsDeepCopy (λ x. x.team_ref) (λ x. x.tags)
        (λ x a b. record x { team_ref = a; tags = b }) ReferenceEqual
        (SliceEqual {A = String} Plain) copy_reference (copy_flat String) (λ x a b. refl)
        (λ x a b. refl) copy_reference-IsDeepCopy copy_flat-IsDeepCopy

  abbrev pub ServiceStatusEqual : Equal (Object layout) OpsgenieServiceStatus
  ServiceStatusEqual =
      OneField (λ x. x.last_synced_time) (λ x a. record x { last_synced_time = a }) Plain

module _ {layout : Layout} {lib : Library layout} (doc : Documented lib) where
  pub service_status_deep_copy_into-IsDeepCopy :
      IsDeepCopy {Object = Object layout} ServiceStatusEqual (service_status_deep_copy_into lib)
  unfolding service_status_deep_copy_into
  service_status_deep_copy_into-IsDeepCopy =
      copy_one-IsDeepCopy (λ x. x.last_synced_time) (λ x a. record x { last_synced_time = a }) Plain
        lib.copy_time (λ x a. refl) doc.time

  abbrev pub ServiceEqual : Equal (Object layout) (OpsgenieService layout)
  ServiceEqual = ResourceEqual doc ServiceSpecEqual ServiceStatusEqual

  pub service_deep_copy_into-IsDeepCopy : IsDeepCopy ServiceEqual (service_deep_copy_into lib)
  unfolding service_deep_copy_into
  service_deep_copy_into-IsDeepCopy =
      resource_deep_copy_into-IsDeepCopy doc ServiceSpecEqual ServiceStatusEqual
        service_spec_deep_copy_into (service_status_deep_copy_into lib)
        service_spec_deep_copy_into-IsDeepCopy service_status_deep_copy_into-IsDeepCopy

  abbrev pub ServiceListEqual : Equal (Object layout) (OpsgenieServiceList layout)
  ServiceListEqual = ResourceListEqual doc ServiceEqual

  pub service_list_deep_copy_into-IsDeepCopy :
      IsDeepCopy ServiceListEqual (service_list_deep_copy_into lib)
  unfolding service_list_deep_copy_into
  service_list_deep_copy_into-IsDeepCopy =
      resource_list_deep_copy_into-IsDeepCopy doc ServiceEqual (service_deep_copy_into lib)
        service_deep_copy_into-IsDeepCopy
