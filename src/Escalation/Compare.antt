-- ===== src/Escalation/Compare.antt =====
-- `compareEscalationRules` and `isUpdateRequired`.
use opsgenie_operator.Prelude.{
  Bool, true, false, not, ◌&&◌, ◌||◌, List, [], ◌∷◌, length, to_uint32, ◌!=◌, nat_eq, string_eq,
  if◌then◌else◌,
}
use opsgenie_operator.Api.Escalation.{OpsgenieEscalationRule, OpsgenieEscalation}
use opsgenie_operator.Opsgenie.Escalation.{Rule, Escalation}

-- The loop's body: whether no test returns false.
unfoldable pub is_rule_same : OpsgenieEscalationRule → Rule → Bool
is_rule_same rule existing =
    if rule.condition != existing.condition
    then false
    else if rule.notify_type != existing.notify_type
    then false
    else if to_uint32 rule.delay_min != existing.delay
    then false
    else not (
        rule.recipient.type != existing.recipient.type
        || rule.recipient.id != existing.recipient.name)

-- The loop, over two lists of one length. (Past the end of the second list Go would panic.)
unfoldable pub is_each_rule_same : List OpsgenieEscalationRule → List Rule → Bool
is_each_rule_same [] existing = true
is_each_rule_same (rule ∷ rules) [] = false
is_each_rule_same (rule ∷ rules) (e ∷ existing) =
    is_rule_same rule e && is_each_rule_same rules existing

unfoldable pub compare_escalation_rules : List OpsgenieEscalationRule → List Rule → Bool
compare_escalation_rules rules existing =
    if length rules != length existing then false else is_each_rule_same rules existing

unfoldable pub is_update_required : OpsgenieEscalation → Escalation → Bool
is_update_required cr existing =
    if cr.spec.name != existing.name || cr.spec.description != existing.description
    then true
    else not (compare_escalation_rules cr.spec.rules existing.rules)
