-- ===== src/Service/Provision.antt =====
-- The requests of Reconcile for a service that is to have a pod.
use mathlib.Core.List.{append-nil}
use mathlib.Core.Path.{subst}
use frp_provisioner.Prelude.{
  true, false, List, [], ◌∷◌, ◌++◌, ◌≡◌, ◌⊎◌, inl, inr, refl, sym, ◌∙◌, ap, if◌then◌else◌, is_empty,
  Bool-cases,
}
use frp_provisioner.Go.{
  continue-keeps, handle-Keeps, >>=-Keeps, errorf_w, ok, Result, lift, fail, handle-eq-ok,
  >>=-eq-ok,
}
use frp_provisioner.Kube.{
  ObjectKey, Pod, Service, with_finalizers, Machinery, IsLawful, Client, Call, World, perform,
  silently,
}
use frp_provisioner.Api.{finalizer_name}
use frp_provisioner.Service.Defs.{
  ServiceReconciler, add_finalizer, create_pod, create_missing, provision, generate_pod, adorn,
}
use frp_provisioner.Service.Pods.{IsPodFor, MakesPodFor, generate_pod-IsPodFor}
use frp_provisioner.Service.Actions.{KeepsIdentity}
use frp_provisioner.Service.Identity.{SameObject, IsPodFor-same, AddsSame, add_finalizer-AddsSame}

-- The update that adds the finalizer, where it is missing.
abbrev pub finalizer_calls : Machinery → Service → List Call
finalizer_calls L s =
    if L.contains s.finalizers finalizer_name
    then []
    else Call.update_service (with_finalizers s (s.finalizers ++ finalizer_name ∷ [])) ∷ []

module _ (L : Machinery) (C : Client) (req : ObjectKey) (s : Service) where
  add_finalizer-calls :
      (w : World C) → (add_finalizer L C req s w).1.calls ≡ w.calls ++ finalizer_calls L s
  unfolding add_finalizer
  add_finalizer-calls w =
      let stamped = with_finalizers s (s.finalizers ++ finalizer_name ∷ []) in
      let I = λ (u : World C). u.calls ≡ w.calls ++ Call.update_service stamped ∷ [] in
      elim (Bool-cases (L.contains s.finalizers finalizer_name)) [
        | inl there ↦ rw (there, if◌then◌else◌) (sym (append-nil w.calls))
        | inr missing ↦
            rw (missing, if◌then◌else◌)
              (continue-keeps I (C.update_service stamped w.store).0
                (perform (Call.update_service stamped) (C.update_service stamped) w).1 _ _
                (λ e u k. k) (λ a u k. k) refl)
      ]

  create_pod-calls :
      (p : Pod) (w : World C) → (create_pod L C p w).1.calls ≡ w.calls ++ Call.create_pod p ∷ []
  unfolding create_pod
  create_pod-calls p w =
      let I = λ (u : World C). u.calls ≡ w.calls ++ Call.create_pod p ∷ [] in
      continue-keeps I (C.create_pod p w.store).0 (perform (Call.create_pod p) (C.create_pod p) w).1
        _ _ (λ e u k. k) (λ a u k. k) refl

module _ (L : Machinery) (C : Client) (r : ServiceReconciler L) (t : Service) where
  generate_pod-calls : (w : World C) → (generate_pod L C r t w).1.calls ≡ w.calls
  unfolding generate_pod adorn
  generate_pod-calls w =
      let I = λ (u : World C). u.calls ≡ w.calls in
      handle-Keeps I (lift (L.unmarshal_pod r.pod_template)) _ _ (λ u k. k) (λ e u k. k)
        (λ template.
          >>=-Keeps I (silently (C.generate_name _)) (adorn L C r t template) (λ u k. k)
            (λ name.
              handle-Keeps I (lift (L.set_controller_reference t _ r.scheme)) _ _ (λ u k. k)
                (λ e u k. k) (λ refs u k. k)))
        w refl

  -- A success made one pod, and asked for its creation.
  created :
      IsLawful L
      → (w w' : World C) → create_missing L C r [] t w ≡ (ok tt, w')
      → (p : Pod) × IsPodFor L t p × (w'.calls ≡ w.calls ++ Call.create_pod p ∷ [])
  unfolding create_missing
  created lawful w w' h =
      elim (handle-eq-ok (generate_pod L C r t)
        (λ e. fail (errorf_w "unable generate pod from podTemplate, err: " e)) (create_pod L C) w
        h) [
          | inl (p, u, e, k) ↦
              let same : u.calls ≡ w.calls =
                sym (ap (λ (x : Result Pod × World C). x.1.calls) e) ∙ generate_pod-calls w in
              (
                p,
                subst (λ (x : Result Pod × World C). MakesPodFor L t x.0) e
                    (generate_pod-IsPodFor L C lawful r t w),
                sym (ap (λ (x : Result (Unit {0}) × World C). x.1.calls) k)
                    ∙ create_pod-calls L C (record { namespace = ""; name = "" }) t p u
                    ∙ ap (λ l. l ++ Call.create_pod p ∷ []) same,
              )
          | inr (e, u, q, k) ↦ absurd (cc)
        ]

-- A success of the branch for a service that is to have a pod asked first for the update that adds
-- the finalizer, if it was missing. If a pod was claimed, it asked for nothing more; if none was, it
-- asked for the creation of exactly one pod, which getOwnedPods lists for this service and which the
-- service controls.
pub provision-calls :
    (L : Machinery) (C : Client)
    → IsLawful L
    → KeepsIdentity C
    → (r : ServiceReconciler L) (req : ObjectKey) (s : Service) (claimed : List Pod)
      (w w' : World C)
    → provision L C r req s claimed w ≡ (ok tt, w')
    → ((is_empty claimed ≡ false) × (w'.calls ≡ w.calls ++ finalizer_calls L s))
      ⊎ ((is_empty claimed ≡ true)
          × ((p : Pod) × IsPodFor L s p
              × (w'.calls ≡ (w.calls ++ finalizer_calls L s) ++ Call.create_pod p ∷ [])))
unfolding provision
provision-calls L C lawful kept r req s claimed w w' h =
    let (t, u, e, k) = >>=-eq-ok (add_finalizer L C req s) (create_missing L C r claimed) w h in
    let same : SameObject L C kept req s t =
      subst (λ (x : Result Service × World C). AddsSame L C kept req s x.0) e
        (add_finalizer-AddsSame L C kept req s w) in
    let first : u.calls ≡ w.calls ++ finalizer_calls L s =
      sym (ap (λ (x : Result Service × World C). x.1.calls) e) ∙ add_finalizer-calls L C req s w in
    created_or_kept claimed t u k same first
  where
    created_or_kept :
        (claimed : List Pod) (t : Service) (u : World C)
        → create_missing L C r claimed t u ≡ (ok tt, w')
        → SameObject L C kept req s t
        → u.calls ≡ w.calls ++ finalizer_calls L s
        → ((is_empty claimed ≡ false) × (w'.calls ≡ w.calls ++ finalizer_calls L s))
          ⊎ ((is_empty claimed ≡ true)
              × ((p : Pod) × IsPodFor L s p
                  × (w'.calls ≡ (w.calls ++ finalizer_calls L s) ++ Call.create_pod p ∷ [])))
    created_or_kept [] t u k same first =
        let (p, good, calls) = created L C r t lawful u w' k in
        inr (
          refl,
          (
            p,
            IsPodFor-same L C kept req s t p same good,
            calls ∙ ap (λ l. l ++ Call.create_pod p ∷ []) first,
          ),
        )
    created_or_kept (_ ∷ _) t u k same first =
        inl (refl, sym (ap (λ (x : Result (Unit {0}) × World C). x.1.calls) k) ∙ first)
