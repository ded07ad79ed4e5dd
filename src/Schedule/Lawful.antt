-- ===== src/Schedule/Lawful.antt =====
-- What the schedule controller relies on in Kubernetes and in Opsgenie's schedule API: while nobody
-- else writes, a read has no effect and answers the same again, a status update stores what it is
-- given, `Create` makes a schedule that `Get` finds by its new id, and `Update` changes the fields
-- that are sent, an empty field not being sent. Opsgenie may answer a rotation otherwise than it was
-- sent: it chooses what was left empty, and moves the start to a whole or half hour.
use opsgenie_operator.Prelude.{
  String, ◌≡◌, ◌≢◌, ℕ, ◌*◌, pos, some, List, [], ◌∷◌, map, ◌==◌, string_eq, if◌then◌else◌,
}
use opsgenie_operator.Exec.{Reply, done}
use opsgenie_operator.Kube.{ObjectKey, Time}
use opsgenie_operator.Api.Schedule.{OpsgenieSchedule}
use opsgenie_operator.Opsgenie.Og.{Rotation}
use opsgenie_operator.Opsgenie.Schedule.{Schedule, CreateRequest, CreateResult, UpdateRequest}
use opsgenie_operator.Schedule.Reconcile.{OpsgenieScheduleReconciler, by_id}

abbrev pub sent_rotations : List Rotation → List Rotation → List Rotation
sent_rotations [] old = old
sent_rotations (x ∷ new) old = x ∷ new

-- A whole or half hour, in nanoseconds from the epoch.
abbrev pub IsHalfHour : Time → Type 0
IsHalfHour t = (k : ℕ) × (t ≡ pos (k * 1800000000000))

-- What is relied on in the rotations that Opsgenie answers for those that were sent.
pub record IsAnswer (answered : Rotation → Rotation) : Type 0 where
  pub name_kept : (x : Rotation) → x.name ≢ "" → (answered x).name ≡ x.name
  pub type_kept : (x : Rotation) → x.type ≢ "" → (answered x).type ≡ x.type
  pub length_kept : (x : Rotation) → x.length ≢ 0 → (answered x).length ≡ x.length
  pub start_kept :
      (x : Rotation) (t : Time)
      → x.start_date ≡ some t
      → IsHalfHour t
      → (answered x).start_date ≡ some t

abbrev pub patch : (Rotation → Rotation) → UpdateRequest → Schedule → Schedule
patch answered q s = record {
  id = s.id;
  description = if q.description == "" then s.description else q.description;
  timezone = if q.timezone == "" then s.timezone else q.timezone;
  rotations = sent_rotations (map answered q.rotations) s.rotations;
}

-- `zone` is the timezone of a schedule that is created without one.
abbrev pub made : (Rotation → Rotation) → String → CreateRequest → String → Schedule
made answered zone q id = record {
  id = id;
  description = q.description;
  timezone = if q.timezone == "" then zone else q.timezone;
  rotations = map answered q.rotations;
}

module _ {W : Type 0} (r : OpsgenieScheduleReconciler W) where
  open r use {client, opsgenie_client, now}

  -- What the two reads answer in a world.
  abbrev pub resource_at : ObjectKey → W → Reply OpsgenieSchedule
  resource_at k w = (client.get k w).0

  abbrev pub schedule_at : String → W → Reply Schedule
  schedule_at id w = (opsgenie_client.get (by_id id) w).0

  pub record IsLawful : Type 0 where
    pub answered : Rotation → Rotation
    pub answer : IsAnswer answered
    pub zone : String
    pub get_quiet : (k : ObjectKey) (w : W) → (client.get k w).1 ≡ w
    pub get_schedule_quiet : (id : String) (w : W) → (opsgenie_client.get (by_id id) w).1 ≡ w
    pub schedule-now : (id : String) (w : W) → schedule_at id (now w).1 ≡ schedule_at id w
    pub status_stored :
        (c : OpsgenieSchedule) {c' : OpsgenieSchedule} {w w' : W}
        → client.update_status c w ≡ (done c', w')
        → resource_at c.metadata w' ≡ done c
    pub status_schedule :
        (c : OpsgenieSchedule) {c' : OpsgenieSchedule} {w w' : W}
        → client.update_status c w ≡ (done c', w')
        → (id : String) → schedule_at id w' ≡ schedule_at id w
    pub create_id :
        (q : CreateRequest) {a : CreateResult} {w w' : W}
        → opsgenie_client.create q w ≡ (done a, w')
        → a.id ≢ ""
    pub create_stored :
        (q : CreateRequest) {a : CreateResult} {w w' : W}
        → opsgenie_client.create q w ≡ (done a, w')
        → schedule_at a.id w' ≡ done (made answered zone q a.id)
    pub update_stored :
        (q : UpdateRequest) {s : Schedule} {w w' : W}
        → schedule_at q.identifier_value w ≡ done s
        → opsgenie_client.update q w ≡ (done tt, w')
        → schedule_at q.identifier_value w' ≡ done (patch answered q s)
