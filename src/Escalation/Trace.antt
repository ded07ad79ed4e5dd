-- ===== src/Escalation/Trace.antt =====
-- Which writes a reconciliation of an escalation makes, which events it records, and how it ends.
use opsgenie_operator.Prelude.{
  String, ◌≡◌, ◌≢◌, refl, List, some, [], ◌∷◌, All, ◌!=◌, string_eq, if◌then◌else◌, arith,
}
use opsgenie_operator.Exec.{
  Reply, done, failed, Error, remote, ApiError, ok, err, Proc, pure, Result, ◌>>=◌,
}
use opsgenie_operator.Exec.Trace.{Traced, quiet, noted, first, Silent, >>=-Silent}
use opsgenie_operator.Kube.{ObjectKey}
use opsgenie_operator.Api.Escalation.{
  OpsgenieEscalation, OpsgenieEscalationRule, OpsgenieEscalationRecipient,
}
use opsgenie_operator.Opsgenie.Escalation.{
  GetRequest, CreateRequest, UpdateRequest, Rule, Escalation,
}
use opsgenie_operator.Escalation.Reconciler.{Event, OpsgenieEscalationReconciler}
use opsgenie_operator.Escalation.Rules.{
  build_rule, resolve_team_id, map_escalation_rules, resolve_recipient_id,
}
use opsgenie_operator.Escalation.Reconcile.{
  reconcile, find_existing, write, resolve, by_id, by_name, failed_fetching,
}

pub data Write : Type 0 where
  created : CreateRequest → Write
  updated : UpdateRequest → Write
  status_written : OpsgenieEscalation → Write
  warned : Event → Write

abbrev pub IsNoCreate : Write → Type 0
IsNoCreate (created q) = ⊥
IsNoCreate _ = Unit

abbrev pub IsNoUpdate : Write → Type 0
IsNoUpdate (updated q) = ⊥
IsNoUpdate _ = Unit

-- The same reconciler, over a world that keeps a record of the writes and of the events.
abbrev pub traced :
    {W : Type 0} → OpsgenieEscalationReconciler W → OpsgenieEscalationReconciler (Traced W Write)
traced r = record {
  client = record {
    get = λ k. quiet (r.client.get k);
    update_status = λ c. noted (status_written c) (r.client.update_status c);
  };
  team_client = record {
    get = λ k. quiet (r.team_client.get k);
    update_status = λ c. quiet (r.team_client.update_status c);
  };
  schedule_client = record {
    get = λ k. quiet (r.schedule_client.get k);
    update_status = λ c. quiet (r.schedule_client.update_status c);
  };
  opsgenie_client = record {
    get = λ q. quiet (r.opsgenie_client.get q);
    create = λ q. noted (created q) (r.opsgenie_client.create q);
    update = λ q. noted (updated q) (r.opsgenie_client.update q);
  };
  record_event = λ e. noted (warned e) (r.record_event e);
  now = quiet r.now;
}

-- The escalation that a resource asks for, owned by a team, with rules that name their recipients.
abbrev pub wanted : OpsgenieEscalation → String → List Rule → CreateRequest
wanted cr team_id rules = record {
  name = cr.spec.name;
  description = cr.spec.description;
  rules = rules;
  owner_team = record { id = team_id; name = "" };
}

-- Whether the escalation is found: by the id of the status if there is one, else by the name.
abbrev pub lookup_request : OpsgenieEscalation → GetRequest
lookup_request cr =
    if cr.status.escalation_id != "" then by_id cr.status.escalation_id else by_name cr.spec.name

abbrev pub IsFound : Reply Escalation → Type 0
IsFound (done x) = x.id ≢ ""
IsFound (failed e) = ⊥

abbrev pub IsRefused : Reply Escalation → Type 0
IsRefused (done x) = ⊥
IsRefused (failed e) = Unit

module _ {W : Type 0} (r : OpsgenieEscalationReconciler W) where
  resolve_team_id-traced :
      (cr : OpsgenieEscalation) → Silent (resolve_team_id r cr) (resolve_team_id (traced r) cr)
  unfolding resolve_team_id
  resolve_team_id-traced cr = λ w log. ground arith

  resolve_recipient_id-traced :
      (recipient : OpsgenieEscalationRecipient) (namespace : String)
      → Silent
          (resolve_recipient_id r recipient namespace)
          (resolve_recipient_id (traced r) recipient namespace)
  unfolding resolve_recipient_id
  resolve_recipient_id-traced recipient namespace = λ w log. ground arith

  map_escalation_rules-traced :
      (namespace : String) (rules : List OpsgenieEscalationRule)
      → Silent
          (map_escalation_rules r namespace rules)
          (map_escalation_rules (traced r) namespace rules)
  unfolding map_escalation_rules
  map_escalation_rules-traced namespace [] = λ w log. refl
  map_escalation_rules-traced namespace (rule ∷ rules) =
      >>=-Silent (resolve_recipient_id r rule.recipient namespace)
        (resolve_recipient_id (traced r) rule.recipient namespace)
        (λ who.
          map_escalation_rules r namespace rules >>= λ mapped. pure (build_rule rule who ∷ mapped))
        (λ who. map_escalation_rules (traced r) namespace rules >>= λ mapped.
          pure (build_rule rule who ∷ mapped))
        (resolve_recipient_id-traced rule.recipient namespace)
        λ who.
          >>=-Silent (map_escalation_rules r namespace rules)
            (map_escalation_rules (traced r) namespace rules)
            (λ mapped. pure (build_rule rule who ∷ mapped))
            (λ mapped. pure (build_rule rule who ∷ mapped))
            (map_escalation_rules-traced namespace rules) λ mapped w log. refl

  -- If the owner team of an escalation is not resolved, then the reconciliation returns that error,
  -- and if one of its recipients is not, then that one; in both cases there is no further call.
  reconcile_escalation_unresolved :
      (req : ObjectKey) (cr : OpsgenieEscalation) (w : W) {e : Error}
      → (r.client.get req w).0 ≡ done cr
      → let owner = resolve_team_id r cr (r.client.get req w).1 in
        let rules = map_escalation_rules r cr.metadata.namespace cr.spec.rules owner.1 in
        (owner.0 ≡ err e → reconcile r req w ≡ (err e, owner.1))
        × ((id : String) → owner.0 ≡ ok id → rules.0 ≡ err e → reconcile r req w ≡ (err e, rules.1))
  unfolding reconcile
  reconcile_escalation_unresolved req cr w h = (λ e. rw (h, e), λ id e f. rw (h, e, f))

  -- What is left to do once the team and the recipients are resolved.
  settle : OpsgenieEscalation → String → List Rule → Proc (Traced W Write) Result
  settle cr team_id rules =
      find_existing (traced r) cr >>= λ (c, existing). write (traced r) c existing team_id rules

  settle-found :
      (cr : OpsgenieEscalation) (team_id : String) (rules : List Rule) (w : W)
      → IsFound (r.opsgenie_client.get (lookup_request cr) w).0
      → All IsNoCreate (settle cr team_id rules (w, [])).1.1
  unfolding settle find_existing write
  settle-found cr team_id rules w h = ground arith

  settle-refused :
      (cr : OpsgenieEscalation) (team_id : String) (rules : List Rule) (w : W) {e : ApiError}
      → cr.status.escalation_id ≢ ""
      → (r.opsgenie_client.get (lookup_request cr) w).0 ≡ failed e
      → let end = settle cr team_id rules (w, []) in
        (end.0 ≡ err (remote e)) × (end.1.1 ≡ (warned (failed_fetching cr e) ∷ []))
  unfolding settle find_existing write
  settle-refused cr team_id rules w h e = ground arith

  settle-missing :
      (cr : OpsgenieEscalation) (team_id : String) (rules : List Rule) (w : W)
      → cr.status.escalation_id ≡ ""
      → ¬ IsFound (r.opsgenie_client.get (lookup_request cr) w).0
      → let log = (settle cr team_id rules (w, [])).1.1 in
        (first log ≡ some (created (wanted cr team_id rules))) × All IsNoUpdate log
  unfolding settle find_existing write
  settle-missing cr team_id rules w h e = ground arith

  reconcile-settle :
      (req : ObjectKey) (cr : OpsgenieEscalation) (w : W) (team_id : String) (rules : List Rule)
      → (r.client.get req w).0 ≡ done cr
      → let owner = resolve_team_id r cr (r.client.get req w).1 in
        owner.0 ≡ ok team_id
        → (map_escalation_rules r cr.metadata.namespace cr.spec.rules owner.1).0 ≡ ok rules
        → reconcile (traced r) req (w, [])
          ≡ settle
              (resolve cr team_id)
              team_id
              rules
              ((map_escalation_rules r cr.metadata.namespace cr.spec.rules owner.1).1, [])
  unfolding reconcile settle
  reconcile-settle req cr w team_id rules h e f =
      rw
        (
          h,
          resolve_team_id-traced cr (r.client.get req w).1 [],
          e,
          map_escalation_rules-traced cr.metadata.namespace cr.spec.rules
              (resolve_team_id r cr (r.client.get req w).1).1 [],
          f,
        )
        refl

  -- Once the owner team and the recipients are resolved, Opsgenie is asked for the escalation: by
  -- the id of the status, or without one by name. If it answers one that has an id, then none is
  -- created. If it refuses an id, then the reconciliation returns that error, and a warning is all
  -- that it writes. If it has none under the name, or fails there for any reason, then the first
  -- write is the creation of an escalation with the name and the description of the resource's spec,
  -- the converted rules, and the id of the resolved team as its owner, and none is updated.
  pub reconcile_escalation-writes :
      (req : ObjectKey) (cr : OpsgenieEscalation) (w : W) (team_id : String) (rules : List Rule)
      → (r.client.get req w).0 ≡ done cr
      → let owner = resolve_team_id r cr (r.client.get req w).1 in
        owner.0 ≡ ok team_id
        → let converted = map_escalation_rules r cr.metadata.namespace cr.spec.rules owner.1 in
          converted.0 ≡ ok rules
          → let reply = (r.opsgenie_client.get (lookup_request cr) converted.1).0 in
            let end = reconcile (traced r) req (w, []) in
            (IsFound reply → All IsNoCreate end.1.1)
            × ((e : ApiError)
                → cr.status.escalation_id ≢ ""
                → reply ≡ failed e
                → (end.0 ≡ err (remote e))
                  × (end.1.1 ≡ (warned (failed_fetching (resolve cr team_id) e) ∷ [])))
            × (cr.status.escalation_id ≡ ""
                → (¬ IsFound reply)
                → (first end.1.1 ≡ some (created (wanted cr team_id rules)))
                  × All IsNoUpdate end.1.1)
  reconcile_escalation-writes req cr w team_id rules h e f =
      let at = resolve cr team_id in
      rw (reconcile-settle req cr w team_id rules h e f) (
        λ x. settle-found at team_id rules _ x,
        λ _ known x. settle-refused at team_id rules _ known x,
        λ new x. settle-missing at team_id rules _ new x,
      )
