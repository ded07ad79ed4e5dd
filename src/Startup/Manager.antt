-- ===== src/Startup/Manager.antt =====
-- What `main` uses of controller-runtime, of the SDK and of the process: parameters.
use opsgenie_operator.Prelude.{ℕ, String, Bool}
use opsgenie_operator.Exec.{Call, Reply, Proc, Result}
use opsgenie_operator.Kube.{Kube, ObjectKey}
use opsgenie_operator.Api.Team.{OpsgenieTeam}
use opsgenie_operator.Api.Service.{OpsgenieService}
use opsgenie_operator.Api.Schedule.{OpsgenieSchedule}
use opsgenie_operator.Api.Escalation.{OpsgenieEscalation}
use opsgenie_operator.Api.IncidentRule.{OpsgenieIncidentRule}
use opsgenie_operator.Escalation.Reconciler.{Event}
use opsgenie_operator.Startup.Slices.{Slice}
use opsgenie_operator.Startup.Tls.{Memory}

-- The kinds of resources that are watched.
pub data Kind : Type 0 where
  team service schedule escalation incident_rule : Kind

-- `predicate.GenerationChangedPredicate`
pub data Filter : Type 0 where
  generation_changed : Filter

-- What a controller's builder is told.
pub record Registration : Type 0 where
  pub kind : Kind
  pub filter : Filter
  pub name : String

-- `metricsserver.Options`; `filtered` says whether there is a `FilterProvider`.
pub record MetricsOptions : Type 0 where
  pub bind_address : String
  pub secure_serving : Bool
  pub filtered : Bool
  pub tls_opts : Slice

-- `ctrl.Options`, with the slice of the webhook server and the memory of the slices.
pub record ManagerOptions : Type 0 where
  pub metrics : MetricsOptions
  pub webhook_tls_opts : Slice
  pub memory : Memory
  pub health_probe_bind_address : String
  pub leader_election : Bool
  pub leader_election_id : String

-- `manager.Manager`: its client at each kind, its event recorders, what is added to it, and
-- `Start` with the context of `ctrl.SetupSignalHandler`, which answers when the manager has
-- stopped.
pub record Manager (W : Type 0) : Type 0 where
  pub team_client : Kube W OpsgenieTeam
  pub service_client : Kube W OpsgenieService
  pub schedule_client : Kube W OpsgenieSchedule
  pub escalation_client : Kube W OpsgenieEscalation
  pub incident_rule_client : Kube W OpsgenieIncidentRule
  pub event_recorder_for : String → Event → Call W (Unit {0})
  pub complete : Registration → (ObjectKey → Proc W Result) → Call W (Reply (Unit {0}))
  pub add : ℕ → Call W (Reply (Unit {0}))
  pub add_healthz_check : String → Call W (Reply (Unit {0}))
  pub add_readyz_check : String → Call W (Reply (Unit {0}))
  pub start : Call W (Reply (Unit {0}))
