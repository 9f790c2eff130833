-- ===== src/Service/Provided.antt =====
-- What a success of provision leaves in the server.
use mathlib.Core.Path.{subst}
use frp_provisioner.Prelude.{
  String, ◌<>◌, Bool, true, false, All, List, [], ◌∷◌, ◌++◌, ◌≡◌, refl, sym, ap, ◌∙◌, inl, inr,
  if◌then◌else◌,
}
use frp_provisioner.Go.{GoError, Result, ok, pure, fail, handle, handle-eq-ok, errorf_w}
use frp_provisioner.Kube.{
  ObjectKey, Pod, Service, with_finalizers, Machinery, IsLawful, Selects, ControlledBy, Client,
  Call, World, perform,
}
use frp_provisioner.Api.{finalizer_name}
use frp_provisioner.Service.Defs.{
  ServiceReconciler, selector_of, is_retired, is_pod_active, generate_pod, add_finalizer,
  create_pod, create_missing,
}
use frp_provisioner.Service.Pods.{IsPodFor, MakesPodFor, generate_pod-IsPodFor, labels_of}
use frp_provisioner.Service.Store.{
  Holdings, IsQuiet, IsStore, IsProvided, performed, contains-append, generate_pod-IsQuiet,
}

pub returned :
    {C : Client}
    → {A : Type 0} → (a b : A) (w u : World C) → pure a w ≡ (ok b, u)
    → (a ≡ b) × (w.store ≡ u.store)
returned a b w u h = let found : Result.ok a ≡ ok b = ap (λ x. x.0) h in (cc, ap (λ x. x.1.store) h)

module _ (L : Machinery) (C : Client) (lawful : IsLawful L) (O : Holdings C) (req : ObjectKey)
    (store : IsStore O req) (s : Service) where
  -- The service with other finalizers, the reconciler's among them, is held beside the same pods.
  abbrev pub IsFinalized : C.State → Service → C.State → Type 0
  IsFinalized before t after =
      (l : List String) × (t ≡ with_finalizers s l)
      × (L.contains l finalizer_name ≡ true)
      × (O.service_of after ≡ t)
      × (O.pods_of after ≡ O.pods_of before)

  either-IsFinalized :
      (b : Bool) (w u : World C) (t : Service) (wording : GoError → GoError)
      → O.service_of w.store ≡ s
      → L.contains s.finalizers finalizer_name ≡ b
      → (if b
            then pure s
            else let stamped = with_finalizers s (s.finalizers ++ finalizer_name ∷ []) in
              handle
                (perform (Call.update_service stamped) (C.update_service stamped))
                (λ e. fail (wording e))
                pure)
          w
        ≡ (ok t, u)
      → IsFinalized w.store t u.store
  either-IsFinalized true w u t wording is_held there h =
      let (same, stays) = returned s t w u h in
      (
        s.finalizers,
        sym same,
        there,
        ap O.service_of (sym stays) ∙ is_held ∙ same,
        ap O.pods_of (sym stays),
      )
  either-IsFinalized false w u t wording is_held missing h =
      let stamped = with_finalizers s (s.finalizers ++ finalizer_name ∷ []) in
      let call = perform {C = C} (Call.update_service stamped) (C.update_service stamped) in
      elim (handle-eq-ok call (λ e. fail (wording e)) pure w h) [
        | inl (a, v, e, k) ↦
            let (same, stays) = returned a t v u k in
            let sent = performed (Call.update_service stamped) (C.update_service stamped) w v a e in
            let (kept, now, pods) =
              store.updates stamped a w.store v.store sent (ap (λ x. x.uid) (sym is_held)) in
            (
              s.finalizers ++ finalizer_name ∷ [],
              sym same ∙ kept,
              contains-append L lawful s.finalizers finalizer_name,
              ap O.service_of (sym stays) ∙ now ∙ sym kept ∙ same,
              ap O.pods_of (sym stays) ∙ pods,
            )
        | inr (e, v, p, k) ↦ absurd (cc)
      ]

  pub add_finalizer-IsFinalized :
      (w u : World C) (t : Service)
      → O.service_of w.store ≡ s
      → add_finalizer L C req s w ≡ (ok t, u)
      → IsFinalized w.store t u.store
  unfolding add_finalizer
  add_finalizer-IsFinalized w u t is_held h =
      either-IsFinalized (L.contains s.finalizers finalizer_name) w u t _ is_held refl h

  -- The pod that was asked for is the only one that is listed.
  create_pod-lists :
      (p : Pod) (w u : World C)
      → IsPodFor L s p
      → O.pods_of w.store s.namespace (selector_of s) ≡ []
      → create_pod L C p w ≡ (ok tt, u)
      → (O.service_of u.store ≡ O.service_of w.store)
        × ((q : Pod) × (O.pods_of u.store s.namespace (selector_of s) ≡ q ∷ [])
            × IsPodFor L s q
            × (is_pod_active q ≡ true))
  unfolding create_pod
  create_pod-lists p w u (place, chosen, controlled) none_yet h =
      let call = perform {C = C} (Call.create_pod p) (C.create_pod p) in
      elim (handle-eq-ok call
        (λ e. fail (errorf_w ("unable create frp pod '" <> L.pod_text p <> "',err: ") e))
        (λ _. pure tt) w h) [
          | inl (q, v, e, k) ↦
              let (_, stays) = returned tt tt v u k in
              let sent = performed (Call.create_pod p) (C.create_pod p) w v q e in
              let (kept, listed, same_place, same_labels, same_owners, alive) =
                store.creates p q w.store v.store (selector_of s) sent chosen in
              (
                ap O.service_of (sym stays) ∙ kept,
                (
                  q,
                  ap (λ x. O.pods_of x s.namespace (selector_of s)) (sym stays)
                      ∙ subst
                          (λ n.
                            O.pods_of v.store n (selector_of s)
                            ≡ q ∷ O.pods_of w.store n (selector_of s))
                          place listed
                      ∙ ap (λ l. q ∷ l) none_yet,
                  (
                    same_place ∙ place,
                    subst (λ x. Selects (selector_of s) (labels_of x)) (sym same_labels) chosen,
                    subst (ControlledBy L s.uid) (sym same_owners) controlled,
                  ),
                  alive,
                ),
              )
          | inr (e, v, p, k) ↦ absurd (cc)
        ]

  module _ (r : ServiceReconciler L) (l : List String) (has : L.contains l finalizer_name ≡ true)
      (exposed : is_retired s ≡ false) where
    pub create_missing-IsProvided :
        (ps : List Pod) (w u : World C)
        → O.service_of w.store ≡ with_finalizers s l
        → O.pods_of w.store s.namespace (selector_of s) ≡ ps
        → All (λ p. is_pod_active p ≡ true) ps
        → All (IsPodFor L s) ps
        → create_missing L C r ps (with_finalizers s l) w ≡ (ok tt, u)
        → IsProvided O L (with_finalizers s l) u.store
    unfolding create_missing is_retired
    create_missing-IsProvided [] w u is_held none_yet active own h =
        elim (handle-eq-ok (generate_pod L C r (with_finalizers s l))
          (λ e. fail (errorf_w "unable generate pod from podTemplate, err: " e)) (create_pod L C) w
          h) [
            | inl (p, v, e, k) ↦
                let quiet : IsQuiet O w.store v.store =
                  subst (λ x. IsQuiet O w.store x.1.store) e
                    (generate_pod-IsQuiet L C lawful O req store r (with_finalizers s l) w) in
                let good : IsPodFor L s p =
                  subst (λ (x : Result Pod × World C). MakesPodFor L s x.0) e
                    (generate_pod-IsPodFor L C lawful r (with_finalizers s l) w) in
                let (same, (q, only, fits, alive)) =
                  create_pod-lists p v u good
                    (ap (λ f. f s.namespace (selector_of s)) quiet.1 ∙ none_yet) k in
                record {
                  held = same ∙ quiet.0 ∙ is_held;
                  finalized = has;
                  exposed = exposed;
                  some_pod = λ nothing. let clash : q ∷ [] ≡ [] = sym only ∙ nothing in absurd (cc);
                  active = rw only (alive, tt);
                  own = rw only (fits, tt);
                }
            | inr (e, v, x, k) ↦ absurd (cc)
          ]
    create_missing-IsProvided (p ∷ ps) w u is_held listed active own h =
        let (_, stays) = returned tt tt w u h in
        let now : O.pods_of u.store s.namespace (selector_of s) ≡ p ∷ ps =
          ap (λ x. O.pods_of x s.namespace (selector_of s)) (sym stays) ∙ listed in
        record {
          held = ap O.service_of (sym stays) ∙ is_held;
          finalized = has;
          exposed = exposed;
          some_pod = λ nothing. let clash : p ∷ ps ≡ [] = sym now ∙ nothing in absurd (cc);
          active = rw now active;
          own = rw now own;
        }
