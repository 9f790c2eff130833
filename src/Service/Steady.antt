-- ===== src/Service/Steady.antt =====
-- Reconcile of a service that has what it is to have.
use frp_provisioner.Prelude.{
  true, false, ◌&&◌, All, All-map, List, [], ◌∷◌, ◌++◌, Option, none, some, ◌≡◌, ◌≢◌, refl, ap, ◌∙◌,
  if◌then◌else◌,
}
use frp_provisioner.Go.{StringMap, ok, fail, continue, ◌>>=◌}
use frp_provisioner.Kube.{
  ObjectKey, Pod, Service, Machinery, IsLawful, Selects, Client, Call, World,
}
use frp_provisioner.Api.{finalizer_name}
use frp_provisioner.RefManager.{RefManager, match_object, IsHeld, claim_owned_objects-held}
use frp_provisioner.Service.Defs.{
  ServiceReconciler, selector_of, is_retired, is_pod_active, split_pods, get_owned_pods, claim_pods,
  delete_pods, add_finalizer, create_missing, provision, settle_service, reconcile_pods,
  reconcile_service, reconcile,
}
use frp_provisioner.Service.Pods.{IsPodFor, labels_of}

pub split_pods-active :
    (ps : List Pod) → All (λ p. is_pod_active p ≡ true) ps → split_pods ps ≡ (ps, [])
unfolding split_pods
split_pods-active [] h = refl
split_pods-active (p ∷ ps) (h, hs) = rw (split_pods-active ps hs, h) refl

module _ (L : Machinery) (C : Client) (lawful : IsLawful L) (r : ServiceReconciler L)
    (s : Service) where
  abbrev own_manager : RefManager L
  own_manager = record { selector = selector_of s; owner = s; schema = some r.scheme }

  -- The labels that a pod is matched by, nil or not.
  selected_labels :
      (labels : Option StringMap)
      → Selects (selector_of s) (labels_of labels)
      → (L.selector_matches (selector_of s) (elim labels [ none ↦ [] | some labels ↦ labels ])
          && true)
        ≡ true
  selected_labels none h = rw (lawful.selected (selector_of s) [] h) refl
  selected_labels (some labels) h = rw (lawful.selected (selector_of s) labels h) refl

  IsPodFor-IsHeld :
      (p : Pod) → IsPodFor L s p → IsHeld L C own_manager (match_object L own_manager []) p
  unfolding match_object
  IsPodFor-IsHeld p (_, chosen, controlled) = (controlled, selected_labels p.labels chosen)

  claim_pods_steady :
      (ps : List Pod) (w : World C)
      → All (IsPodFor L s) ps
      → claim_pods L C r s ps w ≡ (ok ps, record w { once = none })
  unfolding claim_pods
  claim_pods_steady ps w h =
      rw
        (
          claim_owned_objects-held L C own_manager [] ps (record w { once = none })
              (All-map (IsPodFor L s) (IsHeld L C own_manager (match_object L own_manager []))
                IsPodFor-IsHeld ps h),
          lawful.new_aggregate_nil [] tt,
        )
        refl

  provision_steady :
      (req : ObjectKey) (ps : List Pod) (w : World C)
      → ps ≢ []
      → L.contains s.finalizers finalizer_name ≡ true
      → provision L C r req s ps w ≡ (ok tt, w)
  unfolding provision add_finalizer create_missing
  provision_steady req [] w some_pod there = absurd (some_pod refl)
  provision_steady req (p ∷ ps) w some_pod there = rw there refl

  settle_service-provision :
      (req : ObjectKey) (ps : List Pod) (w : World C)
      → is_retired s ≡ false
      → settle_service L C r req s ps [] w ≡ provision L C r req s ps w
  unfolding settle_service
  settle_service-provision req ps w exposed = rw (exposed, if◌then◌else◌) refl

  -- Nothing is left to claim or to delete.
  pub reconcile_pods-provision :
      (req : ObjectKey) (ps : List Pod) (w : World C)
      → is_retired s ≡ false
      → All (IsPodFor L s) ps
      → reconcile_pods L C r req s (ps, []) w ≡ provision L C r req s ps (record w { once = none })
  unfolding reconcile_pods delete_pods
  reconcile_pods-provision req ps w exposed own =
      ap
        (λ x.
          continue x fail
            (λ claimed. delete_pods L C (λ e. e) [] >>= settle_service L C r req s claimed))
        (claim_pods_steady ps w own)
      ∙ settle_service-provision req ps (record w { once = none }) exposed

  reconcile_pods_steady :
      (req : ObjectKey) (ps : List Pod) (w : World C)
      → is_retired s ≡ false
      → L.contains s.finalizers finalizer_name ≡ true
      → ps ≢ []
      → All (IsPodFor L s) ps
      → reconcile_pods L C r req s (ps, []) w ≡ (ok tt, record w { once = none })
  reconcile_pods_steady req ps w exposed there some_pod own =
      reconcile_pods-provision req ps w exposed own
      ∙ provision_steady req ps (record w { once = none }) some_pod there

-- When a service is exposed and has the finalizer, and the server lists for it one pod or more, all of
-- them active and such as the reconciler makes for it, then Reconcile succeeds, and makes no request but
-- to read the service and to list its pods: what an earlier run has brought about is left as it is.
pub reconcile-steady :
    (L : Machinery) (C : Client)
    → IsLawful L
    → (r : ServiceReconciler L) (req : ObjectKey) (s : Service) (pods : List Pod) (w : World C)
      (t u : C.State)
    → C.get_service req w.store ≡ (ok s, t)
    → C.list_pods s.namespace (selector_of s) t ≡ (ok pods, u)
    → is_retired s ≡ false
    → L.contains s.finalizers finalizer_name ≡ true
    → pods ≢ []
    → All (λ p. is_pod_active p ≡ true) pods
    → All (IsPodFor L s) pods
    → reconcile L C r req w ≡ (
      ok tt,
      record w {
        store = u;
        calls =
            (w.calls ++ Call.get_service req ∷ [])
            ++ Call.list_pods s.namespace (selector_of s) ∷ [];
        once = none;
      },
    )
unfolding reconcile reconcile_service reconcile_pods get_owned_pods delete_pods
reconcile-steady L C lawful r req s pods w t u gets lists exposed there some_pod active own =
    rw (gets, lists, split_pods-active pods active)
      (reconcile_pods_steady L C lawful r s req pods
        (record w {
          store = u;
          calls =
              (w.calls ++ Call.get_service req ∷ [])
              ++ Call.list_pods s.namespace (selector_of s) ∷ [];
        })
        exposed there some_pod own)
