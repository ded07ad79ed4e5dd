-- ===== src/DeepCopy/Methods/Runtime.antt =====
-- api/v1beta1/zz_generated.deepcopy.go: DeepCopyObject, the method of `runtime.Object`. A value of that
-- interface is nil or has a pointer to one of the registered types, and the pointer may be nil too.
use opsgenie_operator.Prelude.{Option, none, some}
use opsgenie_operator.DeepCopy.Types.{Layout}
use opsgenie_operator.DeepCopy.Objects.{Object}
use opsgenie_operator.DeepCopy.Memory.{Pointer, M, pure, ◌>>=◌}
use opsgenie_operator.DeepCopy.Library.{Library}
use opsgenie_operator.DeepCopy.Methods.Escalation.{escalation_deep_copy, escalation_list_deep_copy}
use opsgenie_operator.DeepCopy.Methods.IncidentRule.{
  incident_rule_deep_copy, incident_rule_list_deep_copy,
}
use opsgenie_operator.DeepCopy.Methods.Schedule.{schedule_deep_copy, schedule_list_deep_copy}
use opsgenie_operator.DeepCopy.Methods.Service.{service_deep_copy, service_list_deep_copy}
use opsgenie_operator.DeepCopy.Methods.Team.{team_deep_copy, team_list_deep_copy}

-- The types that are registered with the scheme.
pub data Kind : Type 0 where
  escalation escalation_list incident_rule incident_rule_list schedule schedule_list service
        service_list team team_list :
      Kind

pub record RuntimeObject : Type 0 where
  pub kind : Kind
  pub pointer : Option Pointer

-- `if c := in.DeepCopy(); c != nil { return c }; return nil`
unfoldable pub unless_nil : Kind → Option Pointer → Option RuntimeObject
unless_nil k none = none
unless_nil k (some p) = some (record { kind = k; pointer = some p })

module _ {layout : Layout} (lib : Library layout) where
  unfoldable pub escalation_deep_copy_object :
      Option Pointer → M (Object layout) (Option RuntimeObject)
  escalation_deep_copy_object x = do c ← escalation_deep_copy lib x; pure (unless_nil escalation c)

  unfoldable pub escalation_list_deep_copy_object :
      Option Pointer → M (Object layout) (Option RuntimeObject)
  escalation_list_deep_copy_object x = do
    c ← escalation_list_deep_copy lib x
    pure (unless_nil escalation_list c)

  unfoldable pub incident_rule_deep_copy_object :
      Option Pointer → M (Object layout) (Option RuntimeObject)
  incident_rule_deep_copy_object x = do
    c ← incident_rule_deep_copy lib x
    pure (unless_nil incident_rule c)

  unfoldable pub incident_rule_list_deep_copy_object :
      Option Pointer → M (Object layout) (Option RuntimeObject)
  incident_rule_list_deep_copy_object x = do
    c ← incident_rule_list_deep_copy lib x
    pure (unless_nil incident_rule_list c)

  unfoldable pub schedule_deep_copy_object :
      Option Pointer → M (Object layout) (Option RuntimeObject)
  schedule_deep_copy_object x = do c ← schedule_deep_copy lib x; pure (unless_nil schedule c)

  unfoldable pub schedule_list_deep_copy_object :
      Option Pointer → M (Object layout) (Option RuntimeObject)
  schedule_list_deep_copy_object x = do
    c ← schedule_list_deep_copy lib x
    pure (unless_nil schedule_list c)

  unfoldable pub service_deep_copy_object :
      Option Pointer → M (Object layout) (Option RuntimeObject)
  service_deep_copy_object x = do c ← service_deep_copy lib x; pure (unless_nil service c)

  unfoldable pub service_list_deep_copy_object :
      Option Pointer → M (Object layout) (Option RuntimeObject)
  service_list_deep_copy_object x = do
    c ← service_list_deep_copy lib x
    pure (unless_nil service_list c)

  unfoldable pub team_deep_copy_object : Option Pointer → M (Object layout) (Option RuntimeObject)
  team_deep_copy_object x = do c ← team_deep_copy lib x; pure (unless_nil team c)

  unfoldable pub team_list_deep_copy_object :
      Option Pointer → M (Object layout) (Option RuntimeObject)
  team_list_deep_copy_object x = do c ← team_list_deep_copy lib x; pure (unless_nil team_list c)

  -- The method is that of the pointer's type.
  unfoldable pub deep_copy_object : RuntimeObject → M (Object layout) (Option RuntimeObject)
  deep_copy_object x = method x.kind x.pointer
    where
      method : Kind → Option Pointer → M (Object layout) (Option RuntimeObject)
      method escalation = escalation_deep_copy_object
      method escalation_list = escalation_list_deep_copy_object
      method incident_rule = incident_rule_deep_copy_object
      method incident_rule_list = incident_rule_list_deep_copy_object
      method schedule = schedule_deep_copy_object
      method schedule_list = schedule_list_deep_copy_object
      method service = service_deep_copy_object
      method service_list = service_list_deep_copy_object
      method team = team_deep_copy_object
      method team_list = team_list_deep_copy_object
