-- ===== src/Service/Converges.antt =====
-- A run of Reconcile that succeeds leaves nothing to do for the next.
use mathlib.Core.Path.{subst}
use frp_provisioner.Prelude.{
  String, true, false, All, List, [], ◌∷◌, ◌++◌, none, ◌≡◌, ◌≢◌, sym, ap, ◌∙◌, if◌then◌else◌,
}
use frp_provisioner.Go.{ok, pure, fail, continue, >>=-eq-ok}
use frp_provisioner.Kube.{
  ObjectKey, Pod, Service, with_finalizers, Machinery, IsLawful, Client, Call, World, perform,
}
use frp_provisioner.Service.Defs.{
  ServiceReconciler, selector_of, is_retired, is_pod_active, add_finalizer, create_missing,
  provision, split_pods, get_owned_pods, reconcile_pods, reconcile_service, reconcile,
}
use frp_provisioner.Service.Pods.{IsPodFor}
use frp_provisioner.Service.Steady.{split_pods-active, reconcile_pods-provision, reconcile-steady}
use frp_provisioner.Service.Store.{Holdings, IsStore, IsProvided, performed}
use frp_provisioner.Service.Provided.{
  returned, add_finalizer-IsFinalized, create_missing-IsProvided,
}

module _ (L : Machinery) (C : Client) (lawful : IsLawful L) (O : Holdings C) (req : ObjectKey)
    (store : IsStore O req) (s : Service) where
  module _ (r : ServiceReconciler L) (exposed : is_retired s ≡ false) where
    provision-IsProvided :
        (ps : List Pod) (w u : World C)
        → O.service_of w.store ≡ s
        → O.pods_of w.store s.namespace (selector_of s) ≡ ps
        → All (λ p. is_pod_active p ≡ true) ps
        → All (IsPodFor L s) ps
        → provision L C r req s ps w ≡ (ok tt, u)
        → (l : List String) × IsProvided O L (with_finalizers s l) u.store
    unfolding provision
    provision-IsProvided ps w u is_held listed active own h =
        let (t, v, e, k) = >>=-eq-ok (add_finalizer L C req s) (create_missing L C r ps) w h in
        let (l, same, has, now, pods) =
          add_finalizer-IsFinalized L C lawful O req store s w v t is_held e in
        (
          l,
          create_missing-IsProvided L C lawful O req store s r l has exposed ps v u (now ∙ same)
              (ap (λ f. f s.namespace (selector_of s)) pods ∙ listed) active own
              (subst (λ x. create_missing L C r ps x v ≡ (ok tt, u)) same k),
        )

    -- What is listed, split, and reconciled
    reconcile_service-IsProvided :
        (w u : World C)
        → O.service_of w.store ≡ s
        → All (λ p. is_pod_active p ≡ true) (O.pods_of w.store s.namespace (selector_of s))
        → All (IsPodFor L s) (O.pods_of w.store s.namespace (selector_of s))
        → reconcile_service L C r req s w ≡ (ok tt, u)
        → (l : List String) × IsProvided O L (with_finalizers s l) u.store
    unfolding reconcile_service get_owned_pods
    reconcile_service-IsProvided w u is_held active own h =
        let (found, v, e, k) = >>=-eq-ok (get_owned_pods L C s) (reconcile_pods L C r req s) w h in
        let list = C.list_pods s.namespace (selector_of s) in
        let (ps, y, e', k') =
          >>=-eq-ok (perform (Call.list_pods s.namespace (selector_of s)) list)
            (λ ps. pure (split_pods ps)) w e in
        let (read, quiet) =
          store.lists s.namespace (selector_of s) ps w.store y.store
            (performed (Call.list_pods s.namespace (selector_of s)) list w y ps e') in
        let (split, stays) = returned (split_pods ps) found y v k' in
        let pods = O.pods_of w.store s.namespace (selector_of s) in
        let all : found ≡ (pods, []) =
          sym split ∙ ap split_pods read ∙ split_pods-active pods active in
        provision-IsProvided pods (record v { once = none }) u
          (ap O.service_of (sym stays) ∙ quiet.0 ∙ is_held)
          (ap (λ x. O.pods_of x s.namespace (selector_of s)) (sym stays)
            ∙ ap (λ f. f s.namespace (selector_of s)) quiet.1)
          active own
          (sym (reconcile_pods-provision L C lawful r s req pods v exposed own)
            ∙ subst (λ x. reconcile_pods L C r req s x v ≡ (ok tt, u)) all k)

-- A run that does nothing, in a server that has all that the service is to have
idles :
    (L : Machinery) (C : Client)
    → IsLawful L
    → (O : Holdings C) (req : ObjectKey) → IsStore O req
    → (r : ServiceReconciler L) (s : Service) (ps : List Pod) (w : World C) (t u : C.State)
    → IsProvided O L s w.store
    → C.get_service req w.store ≡ (ok s, t)
    → C.list_pods s.namespace (selector_of s) t ≡ (ok ps, u)
    → reconcile L C r req w ≡ (
      ok tt,
      record w {
        store = u;
        calls =
            (w.calls ++ Call.get_service req ∷ [])
            ++ Call.list_pods s.namespace (selector_of s) ∷ [];
        once = none;
      },
    )
idles L C lawful O req store r s ps w t u provided gets lists =
    let (_, quiet) = store.gets s w.store t gets in
    let (read, _) = store.lists s.namespace (selector_of s) ps t u lists in
    let all : O.pods_of w.store s.namespace (selector_of s) ≡ ps =
      sym (read ∙ ap (λ f. f s.namespace (selector_of s)) quiet.1) in
    reconcile-steady L C lawful r req s ps w t u gets lists provided.exposed provided.finalized
      (subst (λ l. l ≢ []) all provided.some_pod)
      (subst (All (λ p. is_pod_active p ≡ true)) all provided.active)
      (subst (All (IsPodFor L s)) all provided.own)

-- On a server to which nobody else writes: when Reconcile finds a service that is exposed, whose listed
-- pods, if there are any, are active and such as the reconciler makes for it, and succeeds, and the server
-- then answers reads of the service and of its pods, the service that is read has the finalizer and is
-- exposed, one pod or more is held for it, all of them active and such as the reconciler makes for it, and
-- another run succeeds and makes no request but these reads.
pub reconcile-converges :
    (L : Machinery) (C : Client)
    → IsLawful L
    → (O : Holdings C) (req : ObjectKey) → IsStore O req
    → (r : ServiceReconciler L) (s s' : Service) (ps : List Pod) (w w' : World C)
      (t t' u' : C.State)
    → C.get_service req w.store ≡ (ok s, t)
    → is_retired s ≡ false
    → All (λ p. is_pod_active p ≡ true) (O.pods_of w.store s.namespace (selector_of s))
    → All (IsPodFor L s) (O.pods_of w.store s.namespace (selector_of s))
    → reconcile L C r req w ≡ (ok tt, w')
    → C.get_service req w'.store ≡ (ok s', t')
    → C.list_pods s'.namespace (selector_of s') t' ≡ (ok ps, u')
    → IsProvided O L s' w'.store
      × (reconcile L C r req w' ≡ (
        ok tt,
        record w' {
          store = u';
          calls =
              (w'.calls ++ Call.get_service req ∷ [])
              ++ Call.list_pods s'.namespace (selector_of s') ∷ [];
          once = none;
        },
      ))
unfolding reconcile
reconcile-converges L C lawful O req store r s s' ps w w' t t' u' gets exposed active own h gets'
      lists' =
    let (read, quiet) = store.gets s w.store t gets in
    let same : O.pods_of w.store s.namespace (selector_of s)
        ≡ O.pods_of t s.namespace (selector_of s) =
      ap (λ f. f s.namespace (selector_of s)) (sym quiet.1) in
    let (l, provided) =
      reconcile_service-IsProvided L C lawful O req store s r exposed
        (record w { store = t; calls = w.calls ++ Call.get_service req ∷ [] }) w'
        (quiet.0 ∙ sym read) (subst (All (λ p. is_pod_active p ≡ true)) same active)
        (subst (All (IsPodFor L s)) same own)
        (ap
            (λ x.
              continue (x.0, record w { store = x.1; calls = w.calls ++ Call.get_service req ∷ [] })
                (λ e. if L.is_not_found e then pure tt else fail e) (reconcile_service L C r req))
            (sym gets)
          ∙ h) in
    let (read', _) = store.gets s' w'.store t' gets' in
    let now = subst (λ x. IsProvided O L x w'.store) (sym (read' ∙ provided.held)) provided in
    (now, idles L C lawful O req store r s' ps w' t' u' now gets' lists')
