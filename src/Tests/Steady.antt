-- ===== src/Tests/Steady.antt =====
-- The service reconciler on a server that keeps what it is sent.
use frp_provisioner.Prelude.{[], ◌∷◌, ◌++◌, ◌≡◌, refl, sym, ap, ◌∙◌, none}
use frp_provisioner.Go.{Result, ok, lookup, value_or_empty}
use frp_provisioner.Kube.{ObjectKey, Service, with_finalizers, Call, World, Client}
use frp_provisioner.Kube.Samples.{libraries, libraries-IsLawful}
use frp_provisioner.Api.{finalizer_name}
use frp_provisioner.Service.{
  reconcile, is_pod_active, is_retired, Holdings, IsStore, IsProvided, reconcile-converges,
}
use frp_provisioner.Tests.Cluster.{State, web_labels, cluster, web, start, reconciler}

-- A new pod is not yet running.
abbrev keeper : Client
keeper = record cluster {
  create_pod = λ p s.
      let made = record p {
        metadata = record p.metadata { deletion_timestamp = none };
        phase = "Pending";
      } in
      (ok made, record s { pods = made ∷ s.pods });
}

abbrev held : Holdings keeper
held = record { service_of = λ s. s.service; pods_of = λ s namespace set. s.pods }

abbrev request : ObjectKey
request = record { namespace = "shop"; name = "web" }

answered :
    {A : Type 0}
    → (a b : A) (t u : State) → ◌≡◌ {A = Result A × State} (ok a, t) (ok b, u)
    → (a ≡ b) × (t ≡ u)
answered a b t u h = let found : Result.ok a ≡ ok b = ap (λ x. x.0) h in (cc, ap (λ x. x.1) h)

keeper-IsStore : IsStore held request
unfolding is_pod_active
keeper-IsStore = record {
  gets = λ s t u h.
      let (same, stays) = answered _ _ _ _ h in
      (sym same, (ap (λ x. x.service) (sym stays), ap held.pods_of (sym stays)));
  lists = λ namespace set ps t u h.
      let (same, stays) = answered _ _ _ _ h in
      (sym same, (ap (λ x. x.service) (sym stays), ap held.pods_of (sym stays)));
  draws = λ base t. (refl, refl);
  updates = λ s a t u h same_uid.
      let (same, now) = answered _ _ _ _ h in
      (sym same, ap (λ x. x.service) (sym now), ap held.pods_of (sym now));
  creates = λ p q t u set h chosen.
      let (same, now) = answered _ _ _ _ h in
      (
        ap (λ x. x.service) (sym now),
        ap (λ x. x.pods) (sym now) ∙ ap (λ x. x ∷ t.pods) same,
        ap (λ x. x.namespace) (sym same),
        ap (λ x. x.labels) (sym same),
        ap (λ x. x.owner_references) (sym same),
        ap is_pod_active (sym same),
      );
}

-- Before, nothing is there for the service, not even the finalizer.
abbrev before : World keeper
before = record {
  store = start.store;
  calls = [];
  once = none;
  temp_files = [];
  connectors = 0;
  connections = 0;
}

abbrev after : World keeper
after = (reconcile libraries keeper reconciler request before).1

provides : reconcile libraries keeper reconciler request before ≡ (ok tt, after)
unfolding reconcile lookup
provides = refl

abbrev provided : Service
provided = with_finalizers web (finalizer_name ∷ [])

reconcile-converges_example :
    IsProvided held libraries provided after.store
    × (reconcile libraries keeper reconciler request after ≡ (
      ok tt,
      record after {
        calls =
            (after.calls ++ Call.get_service request ∷ []) ++ Call.list_pods "shop" web_labels ∷ [];
        once = none;
      },
    ))
unfolding is_retired reconcile lookup value_or_empty
reconcile-converges_example =
    reconcile-converges libraries keeper libraries-IsLawful held request keeper-IsStore reconciler
      web provided after.store.pods before after before.store after.store after.store refl refl tt
      tt provides refl refl
