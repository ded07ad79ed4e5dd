-- ===== src/System/Identified.antt =====
-- No controller ever writes a status without the id of its object in Opsgenie, whatever the order
-- of the runs.
use opsgenie_operator.Prelude.{String}
use opsgenie_operator.Exec.Keeps.{Keeps}
use opsgenie_operator.Kube.Keeps.{KubeKeeps}
use opsgenie_operator.Escalation.Reconciler.{Event}
use opsgenie_operator.Team.Keeps as Team
use opsgenie_operator.Service.Keeps as Service
use opsgenie_operator.Schedule.Keeps as Schedule
use opsgenie_operator.Escalation.Keeps as Escalation
use opsgenie_operator.IncidentRule.Keeps as IncidentRule
use opsgenie_operator.Startup.Manager.{Manager}
use opsgenie_operator.Startup.Main.{Process, Clients}

module _ {W : Type 0} (I : W → Type 0) (p : Process W) (c : Clients W) (mgr : Manager W)
    (Env : W → W → Type 0) where
  -- What may change the world keeps `I`: the calls of Opsgenie and of the clock, the reads and the
  -- events, the changes by others, and a status update if the status that it writes has an id. And
  -- Opsgenie gives an id to what it creates, to the schedules that it looks up, and to the incident
  -- rules that it lists.
  pub record IsRespected : Type 0 where
    pub teams : KubeKeeps I Team.HasId mgr.team_client
    pub services : KubeKeeps I Service.HasId mgr.service_client
    pub schedules : KubeKeeps I Schedule.HasId mgr.schedule_client
    pub escalations : KubeKeeps I Escalation.HasId mgr.escalation_client
    pub incident_rules : KubeKeeps I IncidentRule.HasId mgr.incident_rule_client
    pub team_sdk : Team.SdkKeeps I c.team
    pub service_sdk : Service.SdkKeeps I c.service
    pub schedule_sdk : Schedule.SdkKeeps I c.schedule
    pub escalation_sdk : Escalation.SdkKeeps I c.escalation
    pub events : (name : String) (e : Event) → Keeps I (mgr.event_recorder_for name e)
    pub clock : Keeps I p.now
    pub others : (w w' : W) → Env w w' → I w → I w'
