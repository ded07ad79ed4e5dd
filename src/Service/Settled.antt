-- ===== src/Service/Settled.antt =====
-- The states in which a reconciliation of a service has nothing to do.
use mathlib.Core.List.Perm
use opsgenie_operator.Prelude.{
  String, true, false, ◌≡◌, ◌≢◌, refl, List, [], ◌∷◌, Option, none, some, ◌!=◌, string_eq,
  if◌then◌else◌, arith,
}
use opsgenie_operator.Exec.{done, ok, pure, five_minutes}
use opsgenie_operator.Kube.{ObjectKey, LocalObjectReference}
use opsgenie_operator.Api.Service.{OpsgenieService}
use opsgenie_operator.Opsgenie.Service.{Service}
use opsgenie_operator.Service.Tags.{is_update_required}
use opsgenie_operator.Service.Comparison.{equal_string_slices-perm}
use opsgenie_operator.Service.Reconcile.{
  OpsgenieServiceReconciler, reconcile, after_resolve, resolve_team_id, team_of_ref,
  update_existing, create_request, update_request, resolve,
}
use opsgenie_operator.Service.Lawful.{
  IsLawful, resource_at, team_at, service_at, patch, made, sent_tags,
}

-- A resource whose fields can all be sent by an update, which does not send empty ones.
pub record IsExpressible (cr : OpsgenieService) : Type 0 where
  pub named : cr.spec.name ≢ ""
  pub described : cr.spec.description ≢ ""
  pub tagged : cr.spec.tags ≢ []

-- Nothing but the status differs.
pub record Keeps (cr cr' : OpsgenieService) : Type 0 where
  pub spec_kept : cr'.spec ≡ cr.spec
  pub metadata_kept : cr'.metadata ≡ cr.metadata

sent_tags_all : (new old : List String) → new ≢ [] → sent_tags new old ≡ new
sent_tags_all [] old h = absurd (h refl)
sent_tags_all (t ∷ new) old h = refl

pub updated_current :
    (cr cr' : OpsgenieService) (s : Service)
    → IsExpressible cr
    → Keeps cr cr'
    → is_update_required cr' (patch (update_request cr) s) ≡ false
unfolding is_update_required
updated_current cr cr' s x k =
    rw
      (
        k.spec_kept,
        sent_tags_all cr.spec.tags s.tags x.tagged,
        equal_string_slices-perm cr.spec.tags cr.spec.tags (Perm.refl _),
      )
      (ground (arith, x.named, x.described))

pub created_current :
    (cr cr' : OpsgenieService) (team_id : String)
    → Keeps cr cr'
    → is_update_required cr' (made (create_request cr team_id)) ≡ false
unfolding is_update_required
created_current cr cr' team_id k =
    rw (k.spec_kept, equal_string_slices-perm cr.spec.tags cr.spec.tags (Perm.refl _))
      (ground arith)

module _ {W : Type 0} (r : OpsgenieServiceReconciler W) (laws : IsLawful r) where
  open r use {client, team_client, opsgenie_client, now}

  pub resolve_team_id-quiet : (cr : OpsgenieService) (w : W) → (resolve_team_id r cr w).1 ≡ w
  unfolding resolve_team_id
  resolve_team_id-quiet cr w = go cr.spec.team_ref
    where
      go :
          (ref : Option LocalObjectReference)
          → ((if cr.spec.team_id != ""
                then pure cr.spec.team_id
                else team_of_ref r cr.metadata.namespace ref)
              w).1
            ≡ w
      go none = ground arith
      go (some ref) = ground (
        arith,
        laws.get_team_quiet (record { namespace = cr.metadata.namespace; name = ref.name }) w,
      )

  -- Whether and how the team is resolved hangs on the teams alone.
  pub resolve_team_id_same :
      (cr cr' : OpsgenieService) (w w' : W)
      → Keeps cr cr'
      → ((k : ObjectKey) → team_at r k w' ≡ team_at r k w)
      → (resolve_team_id r cr' w').0 ≡ (resolve_team_id r cr w).0
  unfolding resolve_team_id
  resolve_team_id_same cr cr' w w' k same = rw (k.spec_kept, k.metadata_kept) (go cr.spec.team_ref)
    where
      go :
          (ref : Option LocalObjectReference)
          → ((if cr.spec.team_id != ""
                then pure cr.spec.team_id
                else team_of_ref r cr.metadata.namespace ref)
              w').0
            ≡ ((if cr.spec.team_id != ""
                  then pure cr.spec.team_id
                  else team_of_ref r cr.metadata.namespace ref)
                w).0
      go none = ground arith
      go (some ref) =
          ground (arith, same (record { namespace = cr.metadata.namespace; name = ref.name }))

  -- The resource is there, its team is resolved, and the service of its id needs no update.
  pub record IsSettled (cr : OpsgenieService) (team_id : String) (s : Service) (w : W)
      : Type 0 where
    pub stored : resource_at r cr.metadata w ≡ done cr
    pub owned : (resolve_team_id r cr w).0 ≡ ok team_id
    pub known : cr.status.service_id ≢ ""
    pub found : service_at r cr.status.service_id w ≡ done s
    pub current : is_update_required cr s ≡ false

  update_existing-idle :
      (cr : OpsgenieService) (s : Service) (w : W)
      → service_at r cr.status.service_id w ≡ done s
      → is_update_required cr s ≡ false
      → update_existing r cr w ≡ (ok five_minutes, w)
  unfolding update_existing
  update_existing-idle cr s w found current =
      rw (found, current, laws.get_service_quiet cr.status.service_id w) refl

  pub reconcile_settled :
      (cr : OpsgenieService) (team_id : String) (s : Service) (w : W)
      → IsSettled cr team_id s w
      → reconcile r cr.metadata w ≡ (ok five_minutes, w)
  unfolding reconcile after_resolve is_update_required
  reconcile_settled cr team_id s w h =
      let known : (cr.status.service_id != "") ≡ true = ground (arith, h.known) in
      rw (h.stored, laws.get_quiet cr.metadata w, h.owned, resolve_team_id-quiet cr w, known)
        (update_existing-idle (resolve cr team_id) s w h.found h.current)
