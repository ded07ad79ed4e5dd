-- ===== src/DeepCopy/Methods/Schedule.antt =====
-- api/v1beta1/zz_generated.deepcopy.go: the methods of OpsgenieSchedule and of the structs in it.
use opsgenie_operator.Prelude.{Option}
use opsgenie_operator.Api.Schedule.{
  OpsgenieTimeInterval, OpsgenieParticipant, OpsgenieScheduleStatus,
}
use opsgenie_operator.DeepCopy.Types.{
  Layout, OpsgenieTimeRestriction, OpsgenieRotation, OpsgenieScheduleSpec, OpsgenieSchedule,
  OpsgenieScheduleList,
}
use opsgenie_operator.DeepCopy.Objects.{Object}
use opsgenie_operator.DeepCopy.Memory.{Pointer, M, pure, ◌>>=◌, copy_slice, copy_flat, copy_pointer}
use opsgenie_operator.DeepCopy.Arrays.{schedule_status_stored}
use opsgenie_operator.DeepCopy.PartArrays.{
  time_interval_stored, time_restriction_stored, participant_stored, rotation_stored,
  schedule_spec_stored,
}
use opsgenie_operator.DeepCopy.KindArrays.{schedule_stored, schedule_list_stored}
use opsgenie_operator.DeepCopy.Library.{Library}
use opsgenie_operator.DeepCopy.Methods.Resource.{
  resource_deep_copy_into, resource_list_deep_copy_into,
}

module _ {layout : Layout} where
  unfoldable pub time_interval_deep_copy_into :
      OpsgenieTimeInterval → M (Object layout) OpsgenieTimeInterval
  time_interval_deep_copy_into x = pure x

  unfoldable pub time_interval_deep_copy : Option Pointer → M (Object layout) (Option Pointer)
  time_interval_deep_copy = copy_pointer time_interval_deep_copy_into

  unfoldable pub time_restriction_deep_copy_into :
      OpsgenieTimeRestriction → M (Object layout) OpsgenieTimeRestriction
  time_restriction_deep_copy_into x = do
    intervals ← copy_flat OpsgenieTimeInterval x.intervals
    pure (record x { intervals = intervals })

  unfoldable pub time_restriction_deep_copy : Option Pointer → M (Object layout) (Option Pointer)
  time_restriction_deep_copy = copy_pointer time_restriction_deep_copy_into

  unfoldable pub participant_deep_copy_into :
      OpsgenieParticipant → M (Object layout) OpsgenieParticipant
  participant_deep_copy_into x = pure x

  unfoldable pub participant_deep_copy : Option Pointer → M (Object layout) (Option Pointer)
  participant_deep_copy = copy_pointer participant_deep_copy_into

  unfoldable pub rotation_deep_copy_into : OpsgenieRotation → M (Object layout) OpsgenieRotation
  rotation_deep_copy_into x = do
    participants ← copy_flat OpsgenieParticipant x.participants
    time_restriction ← copy_pointer time_restriction_deep_copy_into x.time_restriction
    pure (record x { participants = participants; time_restriction = time_restriction })

  unfoldable pub rotation_deep_copy : Option Pointer → M (Object layout) (Option Pointer)
  rotation_deep_copy = copy_pointer rotation_deep_copy_into

  unfoldable pub schedule_spec_deep_copy_into :
      OpsgenieScheduleSpec → M (Object layout) OpsgenieScheduleSpec
  schedule_spec_deep_copy_into x = do
    rotations ← copy_slice rotation_deep_copy_into x.rotations
    pure (record x { rotations = rotations })

  unfoldable pub schedule_spec_deep_copy : Option Pointer → M (Object layout) (Option Pointer)
  schedule_spec_deep_copy = copy_pointer schedule_spec_deep_copy_into

module _ {layout : Layout} (lib : Library layout) where
  unfoldable pub schedule_status_deep_copy_into :
      OpsgenieScheduleStatus → M (Object layout) OpsgenieScheduleStatus
  schedule_status_deep_copy_into x = do
    last_synced_time ← lib.copy_time x.last_synced_time
    pure (record x { last_synced_time = last_synced_time })

  unfoldable pub schedule_status_deep_copy : Option Pointer → M (Object layout) (Option Pointer)
  schedule_status_deep_copy = copy_pointer schedule_status_deep_copy_into

  unfoldable pub schedule_deep_copy_into :
      OpsgenieSchedule layout → M (Object layout) (OpsgenieSchedule layout)
  schedule_deep_copy_into =
      resource_deep_copy_into lib schedule_spec_deep_copy_into schedule_status_deep_copy_into

  unfoldable pub schedule_deep_copy : Option Pointer → M (Object layout) (Option Pointer)
  schedule_deep_copy = copy_pointer schedule_deep_copy_into

  unfoldable pub schedule_list_deep_copy_into :
      OpsgenieScheduleList layout → M (Object layout) (OpsgenieScheduleList layout)
  schedule_list_deep_copy_into = resource_list_deep_copy_into lib schedule_deep_copy_into

  unfoldable pub schedule_list_deep_copy : Option Pointer → M (Object layout) (Option Pointer)
  schedule_list_deep_copy = copy_pointer schedule_list_deep_copy_into
