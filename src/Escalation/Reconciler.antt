-- ===== src/Escalation/Reconciler.antt =====
-- `OpsgenieEscalationReconciler`: its clients, one for each kind of resource that it reads, and
-- its event recorder.
use opsgenie_operator.Prelude.{String}
use opsgenie_operator.Exec.{Call}
use opsgenie_operator.Kube.{Kube, Time}
use opsgenie_operator.Api.Team.{OpsgenieTeam}
use opsgenie_operator.Api.Schedule.{OpsgenieSchedule}
use opsgenie_operator.Api.Escalation.{OpsgenieEscalation}
use opsgenie_operator.Opsgenie.Escalation as Sdk

-- A warning, with its reason and its message.
pub record Event : Type 0 where
  pub about : OpsgenieEscalation
  pub reason : String
  pub message : String

pub record OpsgenieEscalationReconciler (W : Type 0) : Type 0 where
  pub client : Kube W OpsgenieEscalation
  pub team_client : Kube W OpsgenieTeam
  pub schedule_client : Kube W OpsgenieSchedule
  pub opsgenie_client : Sdk.Client W
  pub record_event : Event → Call W (Unit {0})
  pub now : Call W Time
