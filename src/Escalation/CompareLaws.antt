-- ===== src/Escalation/CompareLaws.antt =====
-- What the comparison of escalation rules decides, and that it does not recognise what the
-- controller itself has sent.
use opsgenie_operator.Prelude.{
  String, true, ◌≡◌, ◌↔◌, refl, List, [], ◌∷◌, All, Pointwise, arith, length, to_uint32, nat_eq,
  string_eq, length-Pointwise, ap, sym, ◌∙◌,
}
use opsgenie_operator.Api.Escalation.{OpsgenieEscalationRule}
use opsgenie_operator.Opsgenie.Escalation.{Rule}
use opsgenie_operator.Escalation.Compare.{is_rule_same, is_each_rule_same, compare_escalation_rules}
use opsgenie_operator.Escalation.Rules.{Identity, build_recipient, build_rule}

-- A rule of Opsgenie that the comparison takes for the resource's: it compares the id of the
-- recipient with the name of Opsgenie's.
pub record SameRule (rule : OpsgenieEscalationRule) (existing : Rule) : Type 0 where
  pub same_condition : rule.condition ≡ existing.condition
  pub same_notify_type : rule.notify_type ≡ existing.notify_type
  pub same_delay : to_uint32 rule.delay_min ≡ existing.delay
  pub same_recipient_type : rule.recipient.type ≡ existing.recipient.type
  pub id_is_name : rule.recipient.id ≡ existing.recipient.name

is_rule_same-eq-true :
    (rule : OpsgenieEscalationRule) (existing : Rule)
    → (is_rule_same rule existing ≡ true) ↔ SameRule rule existing
unfolding is_rule_same
is_rule_same-eq-true rule existing = (λ h. ground arith, λ h. ground arith)

is_each_rule_same-eq-true :
    (rules : List OpsgenieEscalationRule) (existing : List Rule)
    → length rules ≡ length existing
    → (is_each_rule_same rules existing ≡ true) ↔ Pointwise SameRule rules existing
unfolding is_each_rule_same
is_each_rule_same-eq-true [] [] e = (λ h. tt, λ h. refl)
is_each_rule_same-eq-true [] (x ∷ existing) e = absurd (omega arith)
is_each_rule_same-eq-true (rule ∷ rules) [] e = absurd (omega arith)
is_each_rule_same-eq-true (rule ∷ rules) (x ∷ existing) e =
    let (here, back) = is_rule_same-eq-true rule x in
    let (there, again) = is_each_rule_same-eq-true rules existing (omega arith) in
    (λ h. (here (ground arith), there (ground arith)), λ p. ground (arith, back p.0, again p.1))

-- The rules are found equal exactly if there are as many and they agree position by position, with
-- the recipient's id in the place of the name of Opsgenie's recipient.
pub compare_escalation_rules-eq-true :
    (rules : List OpsgenieEscalationRule) (existing : List Rule)
    → (compare_escalation_rules rules existing ≡ true) ↔ Pointwise SameRule rules existing
unfolding compare_escalation_rules
compare_escalation_rules-eq-true rules existing = (
  λ h. (is_each_rule_same-eq-true rules existing (ground arith)).0 (ground arith),
  λ p.
      let e = length-Pointwise SameRule rules existing p in
      ground (arith, (is_each_rule_same-eq-true rules existing e).1 p),
)

-- `sent` are the rules that the controller builds for these of the resource.
abbrev pub IsSent : List OpsgenieEscalationRule → List Rule → Type 0
IsSent = Pointwise (λ rule q. (who : Identity) × (q ≡ build_rule rule who))

sent_name : (type : String) (who : Identity) → (build_recipient type who).name ≡ ""
unfolding build_recipient
sent_name type who = ground arith

pub sent_type : (type : String) (who : Identity) → (build_recipient type who).type ≡ type
unfolding build_recipient
sent_type type who = ground arith

same_as_sent :
    (rule : OpsgenieEscalationRule) (q : Rule) (who : Identity)
    → q ≡ build_rule rule who
    → SameRule rule q ↔ (rule.recipient.id ≡ "")
same_as_sent rule q who e =
    let named = ap (λ (x : Rule). x.recipient.name) e ∙ sent_name rule.recipient.type who in
    let typed = ap (λ (x : Rule). x.recipient.type) e ∙ sent_type rule.recipient.type who in
    (
      λ h. h.id_is_name ∙ named,
      λ h. record {
        same_condition = ap (λ (x : Rule). x.condition) (sym e);
        same_notify_type = ap (λ (x : Rule). x.notify_type) (sym e);
        same_delay = ap (λ (x : Rule). x.delay) (sym e);
        same_recipient_type = sym typed;
        id_is_name = h ∙ sym named;
      },
    )

each_as_sent :
    (rules : List OpsgenieEscalationRule) (sent : List Rule)
    → IsSent rules sent
    → Pointwise SameRule rules sent ↔ All (λ rule. rule.recipient.id ≡ "") rules
each_as_sent [] [] s = (λ h. tt, λ h. tt)
each_as_sent [] (q ∷ sent) s = absurd s
each_as_sent (rule ∷ rules) [] s = absurd s
each_as_sent (rule ∷ rules) (q ∷ sent) ((who, e), s) =
    let (to, back) = same_as_sent rule q who e in
    let (tos, backs) = each_as_sent rules sent s in
    (λ (h, t). (to h, tos t), λ (h, t). (back h, backs t))

-- If Opsgenie holds the rules just as the controller sends them, the comparison finds them equal
-- exactly if no recipient is given by an id.
pub compare_escalation_rules_sent :
    (rules : List OpsgenieEscalationRule) (sent : List Rule)
    → IsSent rules sent
    → (compare_escalation_rules rules sent ≡ true) ↔ All (λ rule. rule.recipient.id ≡ "") rules
compare_escalation_rules_sent rules sent s =
    let (sound, complete) = compare_escalation_rules-eq-true rules sent in
    let (to, back) = each_as_sent rules sent s in (λ h. to (sound h), λ a. complete (back a))
