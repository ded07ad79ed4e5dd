-- ===== src/Team/View.antt =====
-- An abstract view of a team, which forgets the order of the members.
use mathlib.Core.List.{Nodup, Perm}
use mathlib.Core.List.Perm
use mathlib.Core.Quot
use mathlib.Core.Quot.{Quot, Quot-set}
use opsgenie_operator.Prelude.{
  String, Bool, true, false, ◌≡◌, ◌↔◌, refl, ap, ◌∙◌, string_eq, map, arith, List,
}
use opsgenie_operator.Api.Team.{OpsgenieTeam}
use opsgenie_operator.Opsgenie.Team.{Member, GetTeamResult}
use opsgenie_operator.Team.Members.{
  map_team_members, is_update_required, is_members_update_required,
}
use opsgenie_operator.Team.Comparison.{is_members_update_required-eq-false}

-- Members with their roles, each as often as it occurs, in no order.
abbrev pub MemberBag : Type 0
MemberBag = Quot {α = List Member} Perm

pub record TeamView : Type 0 where
  pub name : String
  pub description : String
  pub members : MemberBag

-- What Opsgenie has.
abbrev pub view : GetTeamResult → TeamView
view t = record { name = t.name; description = t.description; members = Quot.mk t.members }

-- What the resource asks for.
abbrev pub desired : OpsgenieTeam → TeamView
desired cr = record {
  name = cr.spec.name;
  description = cr.spec.description;
  members = Quot.mk (map_team_members cr.spec.members);
}

-- Two tests of one thing agree if one passes exactly when the other does.
eq_of_iff : (a b : Bool) → ((a ≡ false) ↔ (b ≡ false)) → a ≡ b
eq_of_iff true true h = refl
eq_of_iff true false h = absurd (ground (arith, h.1 refl))
eq_of_iff false true h = absurd (ground (arith, h.0 refl))
eq_of_iff false false h = refl

module _ (cr : OpsgenieTeam) (distinct : Nodup (map (λ m. m.user_id) cr.spec.members)) where
  test_on : GetTeamResult → List Member → Bool
  test_on t members = is_members_update_required cr (record t { members = members })

  test_on-perm : (t : GetTeamResult) (a b : List Member) → Perm a b → test_on t a ≡ test_on t b
  unfolding test_on
  test_on-perm t a b p =
      let (sound, complete) =
        is_members_update_required-eq-false cr (record t { members = a }) distinct in
      let (sound', complete') =
        is_members_update_required-eq-false cr (record t { members = b }) distinct in
      eq_of_iff _ _ (
        λ h. complete' (Perm.trans (sound h) p),
        λ h. complete (Perm.trans (sound' h) (Perm.symm p)),
      )

  -- The test of the members, on a bag.
  test_on_bag : GetTeamResult → MemberBag → Bool
  test_on_bag t = Quot.lift (hlevel) (test_on t) (test_on-perm t)

  same_bag :
      (t : GetTeamResult)
      → (is_members_update_required cr t ≡ false) ↔ ((view t).members ≡ (desired cr).members)
  unfolding test_on test_on_bag
  same_bag t =
      let (sound, complete) = is_members_update_required-eq-false cr t distinct in
      (
        λ h. Quot.sound (Perm.symm (sound h)),
        λ e.
            ap (test_on_bag t) e
            ∙ (is_members_update_required-eq-false cr
                  (record t { members = map_team_members cr.spec.members }) distinct).1
                (Perm.refl _),
      )

  -- The two tests of the reconciler decide whether Opsgenie's team is the desired one up to the
  -- order of the members, if the resource lists no user twice.
  pub updates_required-eq-false :
      (t : GetTeamResult)
      → ((is_update_required cr t ≡ false) × (is_members_update_required cr t ≡ false))
        ↔ (view t ≡ desired cr)
  unfolding is_update_required
  updates_required-eq-false t =
      let (sound, complete) = same_bag t in
      (
        λ h.
            let bags = sound h.1 in
            let names : t.name ≡ cr.spec.name = ground (arith, h.0) in
            let descriptions : t.description ≡ cr.spec.description = ground (arith, h.0) in
            rw (names, descriptions, bags) refl,
        λ e.
            let names : t.name ≡ cr.spec.name = ap (λ v. v.name) e in
            let descriptions : t.description ≡ cr.spec.description = ap (λ v. v.description) e in
            (ground arith, complete (ap (λ v. v.members) e)),
      )
