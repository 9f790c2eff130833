-- ===== src/Service/Requests.antt =====
-- Everything that the service reconciler asks of the API server.
use mathlib.Core.Path.{subst}
use frp_provisioner.Prelude.{
  String, true, false, List, [], ◌∷◌, map, some, ◌≡◌, inl, inr, refl, All, All-map,
}
use frp_provisioner.Go.{
  errorf_w, GoError, M, ok, err, Result, panic, lift, fail, Keeps, ◌>>=◌, >>=-Keeps, >>=-then,
  handle-Keeps, if-Keeps, return_error-Keeps, continue,
}
use frp_provisioner.Kube.{
  ObjectKey, Pod, Service, with_finalizers, Machinery, IsLawful, Client, Call, World, silently,
  perform, Made, perform-Made,
}
use frp_provisioner.Api.{finalizer_name}
use frp_provisioner.RefManager.{Among}
use frp_provisioner.Service.Defs.{
  ServiceReconciler, is_retired, claim_pods, note_error, delete_pods, drop_finalizer, clean_up,
  add_finalizer, create_pod, create_missing, provision, settle_service, reconcile_pods,
  generate_pod, adorn,
}
use frp_provisioner.Service.Pods.{IsPodFor, MakesPodFor, generate_pod-IsPodFor}
use frp_provisioner.Service.Identity.{
  SameObject, IsPodFor-same, held, AddsSame, add_finalizer-AddsSame,
}
use frp_provisioner.Service.Actions.{
  KeepsIdentity, IsClaimed, IsAction, claim_pods-IsClaimed, claim_pods-Made,
}

module _ (L : Machinery) (C : Client) (I : World C → Type 0) where
  note_error-Keeps :
      (wording : GoError → GoError) (rest : M (World C) (List GoError)) (e : GoError)
      → Keeps I rest
      → Keeps I (note_error L C wording rest e)
  unfolding note_error
  note_error-Keeps wording rest e h = >>=-Keeps I rest _ h (λ es w k. k)

  pub delete_pods-Keeps :
      (wording : GoError → GoError) (ps : List Pod)
      → All (λ p. Keeps {S = World C} I (perform (Call.delete_pod p) (C.delete_pod p))) ps
      → Keeps I (delete_pods L C wording ps)
  unfolding delete_pods
  delete_pods-Keeps wording [] h w k = k
  delete_pods-Keeps wording (p ∷ ps) h w k =
      let rest = delete_pods L C wording ps in
      let keeps : Keeps I rest = delete_pods-Keeps wording ps h.1 in
      handle-Keeps I (perform (Call.delete_pod p) (C.delete_pod p)) (note_error L C wording rest)
        (λ _. rest) h.0 (λ e. note_error-Keeps wording rest e keeps) (λ _. keeps) w k

module _ (L : Machinery) (C : Client) (lawful : IsLawful L) (kept : KeepsIdentity C)
    (r : ServiceReconciler L) (req : ObjectKey) (s : Service) (active inactive : List Pod)
    (before : List Call) where
  abbrev Safe : World C → Type 0
  Safe = Made (IsAction L C r s active inactive) before

  abbrev calling :
      {A : Type 0} (c : Call) (m : M C.State A)
      → IsAction L C r s active inactive c
      → Keeps {S = World C} Safe (perform c m)
  calling c m h = perform-Made (IsAction L C r s active inactive) before c m h

  drop_finalizer-Safe :
      is_retired s ≡ true → (errors : List GoError) → Keeps Safe (drop_finalizer L C req s errors)
  unfolding drop_finalizer
  drop_finalizer-Safe retired errors =
      let bare = with_finalizers s (L.without s.finalizers finalizer_name) in
      handle-Keeps Safe (perform (Call.update_service bare) (C.update_service bare)) _ _
        (calling (Call.update_service bare) (C.update_service bare) (inl (retired, refl)))
        (λ e. return_error-Keeps Safe _) (λ _. return_error-Keeps Safe _)

  clean_up-Safe :
      is_retired s ≡ true
      → (claimed : List Pod) → All (IsClaimed L C r s active) claimed
      → Keeps Safe (clean_up L C req s claimed)
  unfolding clean_up
  clean_up-Safe retired claimed h =
      >>=-Keeps Safe (delete_pods L C _ claimed) (drop_finalizer L C req s)
        (delete_pods-Keeps L C Safe _ claimed (
          All-map (IsClaimed L C r s active) _
            (λ p c. calling (Call.delete_pod p) (C.delete_pod p) (inr (retired, c))) claimed h))
        (drop_finalizer-Safe retired)

  module _ (exposed : is_retired s ≡ false) where
    create_pod-Safe : (p : Pod) → IsPodFor L s p → Keeps Safe (create_pod L C p)
    unfolding create_pod
    create_pod-Safe p h =
        handle-Keeps Safe (perform (Call.create_pod p) (C.create_pod p)) _ _
          (calling (Call.create_pod p) (C.create_pod p) (exposed, h)) (λ e w k. k) (λ e w k. k)

    adorn-Safe :
        (t : Service) (template : Pod) (name : String) → Keeps Safe (adorn L C r t template name)
    unfolding adorn
    adorn-Safe t template name =
        handle-Keeps Safe (lift (L.set_controller_reference t _ r.scheme)) _ _ (λ w k. k)
          (λ e w k. k) (λ refs w k. k)

    generate_pod-Safe : (t : Service) → Keeps Safe (generate_pod L C r t)
    unfolding generate_pod
    generate_pod-Safe t =
        handle-Keeps Safe (lift (L.unmarshal_pod r.pod_template)) _ _ (λ w k. k) (λ e w k. k)
          λ template.
            >>=-Keeps Safe (silently (C.generate_name _)) (adorn L C r t template) (λ w k. k)
              (adorn-Safe t template)

    created-Safe :
        (t : Service)
        → SameObject L C kept req s t
        → (made : Result Pod) (u : World C) → MakesPodFor L t made
        → Safe u
        → Safe
            (continue
              (made, u)
              (λ e. fail (errorf_w "unable generate pod from podTemplate, err: " e))
              (create_pod L C)).1
    created-Safe t same (ok p) u h k =
        create_pod-Safe p (IsPodFor-same L C kept req s t p same h) u k
    created-Safe t same (err e) u h k = k
    created-Safe t same (panic m) u h k = k

    create_missing-Safe :
        (claimed : List Pod) (t : Service)
        → SameObject L C kept req s t
        → Keeps Safe (create_missing L C r claimed t)
    unfolding create_missing
    create_missing-Safe [] t same w k =
        created-Safe t same (generate_pod L C r t w).0 (generate_pod L C r t w).1
          (generate_pod-IsPodFor L C lawful r t w) (generate_pod-Safe t w k)
    create_missing-Safe (_ ∷ _) t same w k = k

    abbrev stamped : Service
    stamped = held L C kept req s

    add_finalizer-Safe : Keeps Safe (add_finalizer L C req s)
    unfolding add_finalizer
    add_finalizer-Safe =
        if-Keeps Safe (L.contains s.finalizers finalizer_name) _ _ (λ c w k. k)
          λ c.
            handle-Keeps Safe (perform (Call.update_service stamped) (C.update_service stamped)) _ _
              (calling (Call.update_service stamped) (C.update_service stamped)
                (inr (exposed, refl)))
              (λ e w k. k) (λ a w k. k)

    provision-Safe : (claimed : List Pod) → Keeps Safe (provision L C r req s claimed)
    unfolding provision
    provision-Safe claimed w k =
        let safe : Safe (add_finalizer L C req s w).1 = add_finalizer-Safe w k in
        >>=-then Safe (add_finalizer L C req s) (create_missing L C r claimed) w safe λ t e.
          create_missing-Safe claimed t
            (subst (AddsSame L C kept req s) e (add_finalizer-AddsSame L C kept req s w)) _ safe

  settle_service-Safe :
      (claimed : List Pod)
      → All (IsClaimed L C r s active) claimed
      → (errors : List GoError) → Keeps Safe (settle_service L C r req s claimed errors)
  unfolding settle_service
  settle_service-Safe claimed h (e ∷ errors) w k =
      return_error-Keeps Safe (L.new_aggregate (map some (e ∷ errors))) w k
  settle_service-Safe claimed h [] w k =
      if-Keeps Safe (is_retired s) _ _ (λ retired. clean_up-Safe retired claimed h)
        (λ exposed. provision-Safe exposed claimed) w k

  deletions :
      (ps : List Pod)
      → ((p : Pod) → Among p ps → Among p inactive)
      → All (λ p. Keeps {S = World C} Safe (perform (Call.delete_pod p) (C.delete_pod p))) ps
  deletions [] sub = tt
  deletions (p ∷ ps) sub = (
    calling (Call.delete_pod p) (C.delete_pod p) (inl (sub p (inl refl))),
    deletions ps (λ o a. sub o (inr a)),
  )

  rest-Safe :
      (claimed : List Pod)
      → All (IsClaimed L C r s active) claimed
      → Keeps Safe (delete_pods L C (λ e. e) inactive >>= settle_service L C r req s claimed)
  rest-Safe claimed h =
      >>=-Keeps Safe (delete_pods L C (λ e. e) inactive) (settle_service L C r req s claimed)
        (delete_pods-Keeps L C Safe (λ e. e) inactive (deletions inactive (λ o a. a)))
        (settle_service-Safe claimed h)

-- Whatever the server answers, after listing the pods of a service Reconcile asks for nothing but:
-- the service anew; an update by which the service adopts a listed active orphan or releases an
-- active pod of its own; the deletion of an inactive pod; if the service is to have no pod, the
-- deletion of an active pod that was claimed, and the service without its finalizer; and otherwise
-- the service with the finalizer added, and the creation of a pod in its namespace, with the labels
-- that it lists by, and controlled by it.
pub reconcile_pods-Made :
    (L : Machinery) (C : Client)
    → IsLawful L
    → KeepsIdentity C
    → (r : ServiceReconciler L) (req : ObjectKey) (s : Service) (active inactive : List Pod)
      (w : World C)
    → Made
        (IsAction L C r s active inactive)
        w.calls
        (reconcile_pods L C r req s (active, inactive) w).1
unfolding reconcile_pods
reconcile_pods-Made L C lawful kept r req s active inactive w =
    let claim = claim_pods L C r s active in
    >>=-then (Made (IsAction L C r s active inactive) w.calls) claim _ w
      (claim_pods-Made L C r s lawful active inactive w)
      λ claimed e.
        rest-Safe L C lawful kept r req s active inactive w.calls claimed
          (claim_pods-IsClaimed L C r s active w (claim w).1 claimed (λ i. (e i, (claim w).1)))
          (claim w).1 (claim_pods-Made L C r s lawful active inactive w)
