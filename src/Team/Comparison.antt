-- ===== src/Team/Comparison.antt =====
-- What `isMembersUpdateRequired` decides.
use mathlib.Core.List.{
  cons-subset, Mem, Subset, Nodup, Nodup-cons, Perm, mem-cons, mem-cons_self, mem-cons_of_mem,
  not-mem-nil,
}
use mathlib.Core.Logic.Or
use mathlib.Core.HLevel.{⊥_prop}
use mathlib.Core.List.Perm
use opsgenie_operator.Prelude.{
  String, false, ◌≡◌, ◌≢◌, refl, sym, ap, ◌∙◌, ◌↔◌, inl, inr, List, [], ◌∷◌, Option, some, map,
  length, suc, ◌||◌, ◌==◌, nat_eq, string_eq, arith, Bool-cases, ◌&&◌, Option_String-set,
}
use opsgenie_operator.Prelude.Dict.{Dict, lookup, insert, lookup-insert}
use opsgenie_operator.Prelude.Pigeonhole.{perm_of_Nodup, length-perm, Nodup-of_map}
use opsgenie_operator.Api.Team.{OpsgenieTeamMember, OpsgenieTeam}
use opsgenie_operator.Opsgenie.Team.{Member, GetTeamResult}
use opsgenie_operator.Team.Members.{
  map_team_member, map_team_members, existing_members_map, is_member_changed, is_any_changed,
  is_members_update_required,
}

abbrev usernames : List Member → List String
usernames = map (λ m. m.username)

-- A member that the map holds stood in the list, if the map was empty at first.
mem_of_lookup :
    (m : Member) (roles : Dict String) (members : List Member)
    → lookup m.username (existing_members_map roles members) ≡ some m.role
    → (lookup m.username roles ≢ some m.role)
    → Mem m members
unfolding existing_members_map
mem_of_lookup m roles [] h fresh = absurd (fresh h)
mem_of_lookup m roles (n ∷ members) h fresh =
    elim (Bool-cases (n.username == m.username && n.role == m.role)) [
      | inl same ↦ mem-cons.1 (Or.inl (ground arith))
      | inr other ↦ mem-cons_of_mem n (
          mem_of_lookup m (insert n.username n.role roles) members h
            (rw lookup-insert (ground arith)))
    ]

-- A name that does not follow keeps its entry.
lookup_of_fresh :
    (k : String) (roles : Dict String) (members : List Member)
    → (¬ Mem k (usernames members))
    → lookup k (existing_members_map roles members) ≡ lookup k roles
unfolding existing_members_map
lookup_of_fresh k roles [] fresh = refl
lookup_of_fresh k roles (m ∷ members) fresh =
    lookup_of_fresh k (insert m.username m.role roles) members
      (λ p. fresh (mem-cons_of_mem m.username p))
    ∙ rw lookup-insert (ground (arith, λ (e : k ≡ m.username). fresh (mem-cons.1 (Or.inl e))))

lookup_of_mem :
    (m : Member) (roles : Dict String) (members : List Member)
    → Nodup (usernames members)
    → Mem m members
    → lookup m.username (existing_members_map roles members) ≡ some m.role
unfolding existing_members_map
lookup_of_mem m roles [] d p = absurd (not-mem-nil p)
lookup_of_mem m roles (n ∷ members) d p =
    let (fresh, rest) = Nodup-cons.0 d in
    Or.elim (Option_String-set _ _) (mem-cons.0 p)
      (λ e.
        rw
          (
            e,
            lookup_of_fresh n.username (insert n.username n.role roles) members fresh,
            lookup-insert,
          )
          (ground arith))
      (λ q. lookup_of_mem m (insert n.username n.role roles) members rest q)

usernames-map_team_members :
    (members : List OpsgenieTeamMember)
    → usernames (map_team_members members) ≡ map (λ m. m.user_id) members
unfolding map_team_members
usernames-map_team_members [] = refl
usernames-map_team_members (m ∷ members) = ap (◌∷◌ m.user_id) (usernames-map_team_members members)

length-map_team_members :
    (members : List OpsgenieTeamMember) → length (map_team_members members) ≡ length members
unfolding map_team_members
length-map_team_members [] = refl
length-map_team_members (m ∷ members) = ap suc (length-map_team_members members)

subset_of_unchanged :
    (existing : List Member) (members : List OpsgenieTeamMember)
    → is_any_changed (existing_members_map [] existing) members ≡ false
    → Subset (map_team_members members) existing
unfolding is_any_changed map_team_members lookup
subset_of_unchanged existing [] h = λ x p. absurd (not-mem-nil p)
subset_of_unchanged existing (m ∷ members) h =
    let (present, rest) = unchanged_parts (lookup m.user_id (existing_members_map [] existing)) h in
    cons-subset.1 (
      mem_of_lookup (map_team_member m) [] existing present (λ e. cc),
      subset_of_unchanged existing members rest,
    )
  where
    unchanged_parts :
        (found : Option String)
        → (is_member_changed found m.role
            || is_any_changed (existing_members_map [] existing) members)
          ≡ false
        → (found ≡ some m.role)
          × (is_any_changed (existing_members_map [] existing) members ≡ false)
    unchanged_parts found h = ground arith

unchanged_of_subset :
    (existing : List Member) (members : List OpsgenieTeamMember)
    → Nodup (usernames existing)
    → Subset (map_team_members members) existing
    → is_any_changed (existing_members_map [] existing) members ≡ false
unfolding is_any_changed map_team_members
unchanged_of_subset existing [] d sub = refl
unchanged_of_subset existing (m ∷ members) d sub =
    let (present, rest) = cons-subset.0 sub in
    rw (lookup_of_mem (map_team_member m) [] existing d present)
      (ground (arith, unchanged_of_subset existing members d rest))

-- If no user is listed twice in the resource, then no update of the members is required exactly
-- when Opsgenie has the same members with the same roles, in any order.
pub is_members_update_required-eq-false :
    (cr : OpsgenieTeam) (existing : GetTeamResult)
    → Nodup (map (λ m. m.user_id) cr.spec.members)
    → (is_members_update_required cr existing ≡ false)
      ↔ Perm (map_team_members cr.spec.members) existing.members
unfolding is_members_update_required
is_members_update_required-eq-false cr existing d = (
  λ h.
      perm_of_Nodup _ _ distinct (subset_of_unchanged _ _ (ground arith))
        (length-map_team_members _ ∙ ground arith),
  λ p.
      rw (sym (length-perm _ _ p) ∙ length-map_team_members _)
        (ground (arith, unchanged_of_subset _ _ (Perm.nodup (Perm.map _ p) names) (Perm.subset p))),
)
  where
    names : Nodup (usernames (map_team_members cr.spec.members))
    names = rw usernames-map_team_members d

    distinct : Nodup (map_team_members cr.spec.members)
    distinct = Nodup-of_map (λ m. m.username) _ names

-- If the resource lists one member twice, then no update of the members is required for a team
-- that has that member once and any other user beside it, though the members differ.
pub is_members_update_required_repeated :
    (cr : OpsgenieTeam) (existing : GetTeamResult) (m : OpsgenieTeamMember) (other : Member)
    → cr.spec.members ≡ m ∷ m ∷ []
    → existing.members ≡ map_team_member m ∷ other ∷ []
    → other.username ≢ m.user_id
    → (is_members_update_required cr existing ≡ false)
      × (¬ Perm (map_team_members cr.spec.members) existing.members)
unfolding is_members_update_required map_team_members lookup insert
is_members_update_required_repeated cr existing m other listed has differ = (
  rw (listed, has) (ground arith),
  λ p.
      not_listed
        (rw listed at (Perm.subset (Perm.symm p) other (rw has (mem-cons_of_mem _ mem-cons_self)))),
)
  where
    differs : ¬ (other ≡ map_team_member m)
    differs e = differ (ap (λ (x : Member). x.username) e)

    not_listed : ¬ Mem other (map_team_member m ∷ map_team_member m ∷ [])
    not_listed p =
        Or.elim ⊥_prop (mem-cons.0 p) differs
          (λ q. Or.elim ⊥_prop (mem-cons.0 q) differs not-mem-nil)
