-- ===== src/DeepCopy/Deep/Schedule.antt =====
-- The methods of OpsgenieSchedule and of the structs in it make deep copies.
use opsgenie_operator.Prelude.{refl}
use opsgenie_operator.Api.Schedule.{
  OpsgenieTimeInterval, OpsgenieParticipant, OpsgenieScheduleStatus,
}
use opsgenie_operator.DeepCopy.Types.{
  Layout, OpsgenieTimeRestriction, OpsgenieRotation, OpsgenieScheduleSpec, OpsgenieSchedule,
  OpsgenieScheduleList,
}
use opsgenie_operator.DeepCopy.Objects.{Object}
use opsgenie_operator.DeepCopy.Memory.{copy_slice, copy_flat, copy_pointer}
use opsgenie_operator.DeepCopy.Arrays.{schedule_status_stored}
use opsgenie_operator.DeepCopy.PartArrays.{
  time_interval_stored, time_restriction_stored, participant_stored, rotation_stored,
  schedule_spec_stored,
}
use opsgenie_operator.DeepCopy.KindArrays.{schedule_stored, schedule_list_stored}
use opsgenie_operator.DeepCopy.Library.{Library}
use opsgenie_operator.DeepCopy.Equal.{Equal, IsDeepCopy, Plain, SliceEqual, PointerEqual}
use opsgenie_operator.DeepCopy.Copies.{pure-IsDeepCopy}
use opsgenie_operator.DeepCopy.Elements.{copy_slice-IsDeepCopy, copy_pointer-IsDeepCopy}
use opsgenie_operator.DeepCopy.Flat.{copy_flat-IsDeepCopy}
use opsgenie_operator.DeepCopy.Fields.{
  OneField, copy_one-IsDeepCopy, TwoFields, copy_two-IsDeepCopy,
}
use opsgenie_operator.DeepCopy.Documented.{Documented}
use opsgenie_operator.DeepCopy.Deep.Resource.{
  ResourceEqual, ResourceListEqual, resource_deep_copy_into-IsDeepCopy,
  resource_list_deep_copy_into-IsDeepCopy,
}
use opsgenie_operator.DeepCopy.Methods.Schedule.{
  time_interval_deep_copy_into, time_restriction_deep_copy_into, participant_deep_copy_into,
  rotation_deep_copy_into, schedule_spec_deep_copy_into, schedule_status_deep_copy_into,
  schedule_deep_copy_into, schedule_list_deep_copy_into,
}

module _ {layout : Layout} where
  pub time_interval_deep_copy_into-IsDeepCopy :
      IsDeepCopy {Object = Object layout} Plain time_interval_deep_copy_into
  unfolding time_interval_deep_copy_into
  time_interval_deep_copy_into-IsDeepCopy = pure-IsDeepCopy

  abbrev pub TimeRestrictionEqual : Equal (Object layout) OpsgenieTimeRestriction
  TimeRestrictionEqual =
      OneField (λ x. x.intervals) (λ x a. record x { intervals = a })
        (SliceEqual {A = OpsgenieTimeInterval} Plain)

  pub time_restriction_deep_copy_into-IsDeepCopy :
      IsDeepCopy {Object = Object layout} TimeRestrictionEqual time_restriction_deep_copy_into
  unfolding time_restriction_deep_copy_into
  time_restriction_deep_copy_into-IsDeepCopy =
      copy_one-IsDeepCopy (λ x. x.intervals) (λ x a. record x { intervals = a })
        (SliceEqual {A = OpsgenieTimeInterval} Plain) (copy_flat OpsgenieTimeInterval) (λ x a. refl)
        copy_flat-IsDeepCopy

  pub participant_deep_copy_into-IsDeepCopy :
      IsDeepCopy {Object = Object layout} Plain participant_deep_copy_into
  unfolding participant_deep_copy_into
  participant_deep_copy_into-IsDeepCopy = pure-IsDeepCopy

  abbrev pub RotationEqual : Equal (Object layout) OpsgenieRotation
  RotationEqual =
      TwoFields (λ x. x.participants) (λ x. x.time_restriction)
        (λ x a b. record x { participants = a; time_restriction = b })
        (SliceEqual {A = OpsgenieParticipant} Plain) (PointerEqual TimeRestrictionEqual)

  pub rotation_deep_copy_into-IsDeepCopy :
      IsDeepCopy {Object = Object layout} RotationEqual rotation_deep_copy_into
  unfolding rotation_deep_copy_into
  rotation_deep_copy_into-IsDeepCopy =
      copy_two-IsDeepCopy (λ x. x.participants) (λ x. x.time_restriction)
        (λ x a b. record x { participants = a; time_restriction = b })
        (SliceEqual {A = OpsgenieParticipant} Plain) (PointerEqual TimeRestrictionEqual)
        (copy_flat OpsgenieParticipant) (copy_pointer time_restriction_deep_copy_into)
        (λ x a b. refl) (λ x a b. refl) copy_flat-IsDeepCopy
        (copy_pointer-IsDeepCopy TimeRestrictionEqual time_restriction_deep_copy_into
          time_restriction_deep_copy_into-IsDeepCopy)

  abbrev pub ScheduleSpecEqual : Equal (Object layout) OpsgenieScheduleSpec
  ScheduleSpecEqual =
      OneField (λ x. x.rotations) (λ x a. record x { rotations = a }) (SliceEqual RotationEqual)

  pub schedule_spec_deep_copy_into-IsDeepCopy :
      IsDeepCopy {Object = Object layout} ScheduleSpecEqual schedule_spec_deep_copy_into
  unfolding schedule_spec_deep_copy_into
  schedule_spec_deep_copy_into-IsDeepCopy =
      copy_one-IsDeepCopy (λ x. x.rotations) (λ x a. record x { rotations = a })
        (SliceEqual RotationEqual) (copy_slice rotation_deep_copy_into) (λ x a. refl)
        (copy_slice-IsDeepCopy RotationEqual rotation_deep_copy_into
          rotation_deep_copy_into-IsDeepCopy)

  abbrev pub ScheduleStatusEqual : Equal (Object layout) OpsgenieScheduleStatus
  ScheduleStatusEqual =
      OneField (λ x. x.last_synced_time) (λ x a. record x { last_synced_time = a }) Plain

module _ {layout : Layout} {lib : Library layout} (doc : Documented lib) where
  pub schedule_status_deep_copy_into-IsDeepCopy :
      IsDeepCopy {Object = Object layout} ScheduleStatusEqual (schedule_status_deep_copy_into lib)
  unfolding schedule_status_deep_copy_into
  schedule_status_deep_copy_into-IsDeepCopy =
      copy_one-IsDeepCopy (λ x. x.last_synced_time) (λ x a. record x { last_synced_time = a }) Plain
        lib.copy_time (λ x a. refl) doc.time

  abbrev pub ScheduleEqual : Equal (Object layout) (OpsgenieSchedule layout)
  ScheduleEqual = ResourceEqual doc ScheduleSpecEqual ScheduleStatusEqual

  pub schedule_deep_copy_into-IsDeepCopy : IsDeepCopy ScheduleEqual (schedule_deep_copy_into lib)
  unfolding schedule_deep_copy_into
  schedule_deep_copy_into-IsDeepCopy =
      resource_deep_copy_into-IsDeepCopy doc ScheduleSpecEqual ScheduleStatusEqual
        schedule_spec_deep_copy_into (schedule_status_deep_copy_into lib)
        schedule_spec_deep_copy_into-IsDeepCopy schedule_status_deep_copy_into-IsDeepCopy

  abbrev pub ScheduleListEqual : Equal (Object layout) (OpsgenieScheduleList layout)
  ScheduleListEqual = ResourceListEqual doc ScheduleEqual

  pub schedule_list_deep_copy_into-IsDeepCopy :
      IsDeepCopy ScheduleListEqual (schedule_list_deep_copy_into lib)
  unfolding schedule_list_deep_copy_into
  schedule_list_deep_copy_into-IsDeepCopy =
      resource_list_deep_copy_into-IsDeepCopy doc ScheduleEqual (schedule_deep_copy_into lib)
        schedule_deep_copy_into-IsDeepCopy
