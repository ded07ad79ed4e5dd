-- ===== src/Escalation/RulesLaws.antt =====
-- Whom the converted escalation rules reach.
use mathlib.Core.Path.{subst}
use opsgenie_operator.Prelude.{
  ap, String, ◌≡◌, ◌≢◌, refl, ◌⊎◌, inl, inr, List, Option, none, some, [], ◌∷◌, ◌!=◌, ◌==◌, ◌&&◌,
  string_eq, arith, Bool-cases, Pointwise, ◌↔◌, to_uint32,
}
use opsgenie_operator.Exec.{Reply, done, failed, ok, pure, of_reply, continue}
use opsgenie_operator.Exec.Laws.{on_ok}
use opsgenie_operator.Kube.{LocalObjectReference, ObjectKey}
use opsgenie_operator.Api.Team.{OpsgenieTeam}
use opsgenie_operator.Api.Schedule.{OpsgenieSchedule}
use opsgenie_operator.Api.Escalation.{OpsgenieEscalationRule, OpsgenieEscalationRecipient}
use opsgenie_operator.Opsgenie.Escalation.{Rule}
use opsgenie_operator.Escalation.Reconciler.{OpsgenieEscalationReconciler}
use opsgenie_operator.Escalation.Rules.{
  Identity, build_recipient, build_rule, recipient_of_refs, resolve_recipient_id,
  map_escalation_rules,
}

abbrev pub IsUserByName : OpsgenieEscalationRecipient → Type 0
IsUserByName p = (p.type ≡ "user") × (p.username ≢ "")

abbrev pub key_of : String → LocalObjectReference → ObjectKey
key_of namespace ref = record { namespace = namespace; name = ref.name }

module _ {W : Type 0} (r : OpsgenieEscalationReconciler W) (namespace : String) where
  -- Whom a recipient stands for at a state of the world: the id given, or else the username given
  -- for a user, or else the Opsgenie id of the team referred to, or else that of the schedule.
  pub data Reaches (p : OpsgenieEscalationRecipient) (w : W) (who : Identity) : Type 0 where
    by_given_id : p.id ≢ "" → who.id ≡ p.id → who.username ≡ "" → Reaches p w who
    by_username :
        p.id ≡ "" → IsUserByName p → who.id ≡ "" → who.username ≡ p.username → Reaches p w who
    by_team :
        p.id ≡ ""
        → (¬ IsUserByName p)
        → (ref : LocalObjectReference) (team : OpsgenieTeam) → p.team_ref ≡ some ref
        → (r.team_client.get (key_of namespace ref) w).0 ≡ done team
        → who.id ≡ team.status.team_id
        → who.username ≡ ""
        → Reaches p w who
    by_schedule :
        p.id ≡ ""
        → (¬ IsUserByName p)
        → (ref : LocalObjectReference) (schedule : OpsgenieSchedule) → p.team_ref ≡ none
        → p.schedule_ref ≡ some ref
        → (r.schedule_client.get (key_of namespace ref) w).0 ≡ done schedule
        → who.id ≡ schedule.status.schedule_id
        → who.username ≡ ""
        → Reaches p w who

  by_refs :
      (p : OpsgenieEscalationRecipient) (w : W) (who : Identity)
      → p.id ≡ ""
      → (¬ IsUserByName p)
      → (a b : Option LocalObjectReference) → p.team_ref ≡ a
      → p.schedule_ref ≡ b
      → (recipient_of_refs r namespace a b w).0 ≡ ok who
      → Reaches p w who
  unfolding recipient_of_refs
  by_refs p w who i n (some ref) b ea eb h =
      go (r.team_client.get (key_of namespace ref) w).0 refl h
    where
      go :
          (reply : Reply OpsgenieTeam)
          → (r.team_client.get (key_of namespace ref) w).0 ≡ reply
          → (continue
              (of_reply reply)
              (λ team. pure (record { id = team.status.team_id; username = "" }))
              (r.team_client.get (key_of namespace ref) w).1).0
            ≡ ok who
          → Reaches p w who
      go (done team) e h = by_team i n ref team ea e (ground arith) (ground arith)
      go (failed x) e h = cc
  by_refs p w who i n none (some ref) ea eb h =
      go (r.schedule_client.get (key_of namespace ref) w).0 refl h
    where
      go :
          (reply : Reply OpsgenieSchedule)
          → (r.schedule_client.get (key_of namespace ref) w).0 ≡ reply
          → (continue
              (of_reply reply)
              (λ schedule. pure (record { id = schedule.status.schedule_id; username = "" }))
              (r.schedule_client.get (key_of namespace ref) w).1).0
            ≡ ok who
          → Reaches p w who
      go (done schedule) e h = by_schedule i n ref schedule ea eb e (ground arith) (ground arith)
      go (failed x) e h = cc
  by_refs p w who i n none none ea eb h = cc

  sound :
      (p : OpsgenieEscalationRecipient) (w : W) (who : Identity)
      → (resolve_recipient_id r p namespace w).0 ≡ ok who
      → Reaches p w who
  unfolding resolve_recipient_id
  sound p w who = elim (Bool-cases (p.id != "")) [
    | inl given ↦ rw given (λ h. by_given_id (ground arith) (ground arith) (ground arith))
    | inr missing ↦ elim (Bool-cases (p.type == "user" && p.username != "")) [
      | inl user ↦
          rw (missing, user)
            (λ h. by_username (ground arith) (ground arith) (ground arith) (ground arith))
      | inr other ↦
          rw (missing, other)
            (λ h.
              by_refs p w who (ground arith) (ground arith) p.team_ref p.schedule_ref refl refl h)
    ]
  ]

  complete :
      (p : OpsgenieEscalationRecipient) (w : W) (who : Identity)
      → Reaches p w who
      → (resolve_recipient_id r p namespace w).0 ≡ ok who
  unfolding resolve_recipient_id
  complete p w who (by_given_id i a b) = ground arith
  complete p w who (by_username i u a b) = ground arith
  complete p w who (by_team i n ref team e g a b) = ground arith
  complete p w who (by_schedule i n ref schedule e e' g a b) = ground arith

  -- A recipient is resolved to an identity exactly if it stands for it.
  pub resolve_recipient_id-eq-ok :
      (p : OpsgenieEscalationRecipient) (w : W) (who : Identity)
      → ((resolve_recipient_id r p namespace w).0 ≡ ok who) ↔ Reaches p w who
  resolve_recipient_id-eq-ok p w who = (sound p w who, complete p w who)

  -- What a converted rule says: the same condition and kind of notification, the delay as a
  -- `uint32`, and a recipient of the same type, which is somebody that the resource's recipient
  -- stood for when it was resolved.
  pub record RuleConverts (rule : OpsgenieEscalationRule) (q : Rule) : Type 0 where
    pub condition_kept : q.condition ≡ rule.condition
    pub notify_kept : q.notify_type ≡ rule.notify_type
    pub delay_cut : q.delay ≡ to_uint32 rule.delay_min
    pub type_kept : q.recipient.type ≡ rule.recipient.type
    pub at : W
    pub reached :
        Reaches rule.recipient at (record { id = q.recipient.id; username = q.recipient.username })

  -- Only one of the two parts of an identity is filled in.
  IsEither : Identity → Type 0
  IsEither who = (who.id ≡ "") ⊎ (who.username ≡ "")

  Reaches-IsEither :
      (p : OpsgenieEscalationRecipient) (w : W) (who : Identity) → Reaches p w who → IsEither who
  unfolding IsEither
  Reaches-IsEither p w who (by_given_id i a b) = inr b
  Reaches-IsEither p w who (by_username i u a b) = inl a
  Reaches-IsEither p w who (by_team i n ref team e g a b) = inr b
  Reaches-IsEither p w who (by_schedule i n ref schedule e e' g a b) = inr b

  built :
      (rule : OpsgenieEscalationRule) (w : W) (who : Identity)
      → Reaches rule.recipient w who
      → RuleConverts rule (build_rule rule who)
  unfolding build_recipient IsEither
  built rule w who h =
      let one = Reaches-IsEither rule.recipient w who h in
      let same_id : (build_recipient rule.recipient.type who).id ≡ who.id = ground arith in
      let same_username : (build_recipient rule.recipient.type who).username ≡ who.username =
        ground arith in
      record {
        condition_kept = refl;
        notify_kept = refl;
        delay_cut = refl;
        type_kept = ground arith;
        at = w;
        reached = rw (same_id, same_username) h;
      }

  -- If the rules of an escalation are converted, then there is a converted rule for each of them, in
  -- order, with its recipient resolved.
  pub map_escalation_rules-eq-ok :
      (rules : List OpsgenieEscalationRule) (w : W) (w' : W) (out : List Rule)
      → map_escalation_rules r namespace rules w ≡ (ok out, w')
      → Pointwise RuleConverts rules out
  unfolding map_escalation_rules
  map_escalation_rules-eq-ok [] w w' out h =
      let empty : [] ≡ out = ground arith in subst (Pointwise RuleConverts []) empty tt
  map_escalation_rules-eq-ok (rule ∷ rules) w w' out h =
      on_ok (resolve_recipient_id r rule.recipient namespace) _ h λ who v e h₁.
        on_ok (map_escalation_rules r namespace rules) _ h₁ λ mapped v' e' h₂.
          let made : build_rule rule who ∷ mapped ≡ out = ground arith in
          subst (Pointwise RuleConverts (rule ∷ rules)) made (
            built rule w who (sound rule.recipient w who (ap (λ x. x.0) e)),
            map_escalation_rules-eq-ok rules v v' mapped e',
          )
