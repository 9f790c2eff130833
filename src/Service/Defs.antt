-- ===== src/Service/Defs.antt =====
-- pkg/controller/service_controller.go: the reconciler that keeps one frp client pod for each exposed
-- service, and IsPodActive of pkg/utils/controller/controller.go. Log lines are left out.
use frp_provisioner.Prelude.{
  String, ◌<>◌, Bool, not, ◌&&◌, ◌||◌, List, [], ◌∷◌, ◌++◌, Option, none, some, ◌==◌, is_some,
  is_empty, map, if◌then◌else◌,
}
use frp_provisioner.Go.{
  StringMap, value_or_empty, insert, GoError, errorf_w, M, pure, fail, lift, handle, return_error,
  ◌>>=◌,
}
use frp_provisioner.Kube.{
  ObjectKey, OwnerReference, Pod, Service, with_finalizers, pod_succeeded, pod_failed,
  service_type_load_balancer, Machinery, Client, Call, World, perform, silently,
}
use frp_provisioner.Api.{
  finalizer_name, label_service_name_key, label_controller_uid_key, annotation_frp_server_name_key,
}
use frp_provisioner.RefManager.{new_ref_manager, claim_owned_objects}

abbrev pub default_base_name : String
default_base_name = "frp-client"

-- The scheme is the manager's, and is never nil.
pub record ServiceReconciler (L : Machinery) : Type 0 where
  pub scheme : L.Scheme
  pub pod_template : String

unfoldable pub is_pod_active : Pod → Bool
is_pod_active p =
    not (p.phase == pod_succeeded)
    && not (p.phase == pod_failed)
    && not (is_some p.deletion_timestamp)

-- The label set of getOwnedPods and claimPods.
abbrev pub selector_of : Service → StringMap
selector_of s = (label_service_name_key, s.name) ∷ (label_controller_uid_key, s.uid) ∷ []

-- The loop of getOwnedPods: active and inactive pods, in order.
unfoldable pub split_pods : List Pod → List Pod × List Pod
unfolding is_pod_active
split_pods [] = ([], [])
split_pods (p ∷ ps) =
    let (active, inactive) = split_pods ps in
    if is_pod_active p then (p ∷ active, inactive) else (active, p ∷ inactive)

-- `namespace/name` of a request
abbrev pub request_text : ObjectKey → String
request_text req = req.namespace <> "/" <> req.name

-- The test of Reconcile for a service that is to have no pod: it is deleted, or is not a load
-- balancer with the name of a server.
unfoldable pub is_retired : Service → Bool
unfolding value_or_empty
is_retired s =
    not (s.service_type == service_type_load_balancer)
    || is_empty s.annotations
    || value_or_empty annotation_frp_server_name_key s.annotations == ""
    || is_some s.deletion_timestamp

-- The template without labels, if it has none: a write to a nil map would panic.
unfoldable pub labels_or_new : Option StringMap → StringMap
labels_or_new none = []
labels_or_new (some labels) = labels

-- The pod with its namespace, name, owner and labels, which generatePod sets one by one.
unfoldable pub dress : Service → String → Pod → List OwnerReference → Pod
unfolding labels_or_new insert
dress owner name pod refs = record pod {
  metadata = record pod.metadata {
    namespace = owner.namespace;
    name = name;
    owner_references = refs;
    labels = some (
        insert label_controller_uid_key owner.uid
          (insert label_service_name_key owner.name (labels_or_new pod.labels)));
  };
}

module _ (L : Machinery) (C : Client) where
  unfoldable pub get_owned_pods : Service → M (World C) (List Pod × List Pod)
  unfolding split_pods
  get_owned_pods s =
      perform (Call.list_pods s.namespace (selector_of s)) (C.list_pods s.namespace (selector_of s))
      >>= λ pods. pure (split_pods pods)

  -- generatePod behind the template, with the pod as SetControllerReference sees it.
  unfoldable pub adorn : ServiceReconciler L → Service → Pod → String → M (World C) Pod
  unfolding dress labels_or_new
  adorn r owner pod name =
      let named : Pod = record pod {
        metadata = record pod.metadata {
          namespace = owner.namespace;
          name = name;
          labels = some (labels_or_new pod.labels);
        };
      } in
      handle (lift (L.set_controller_reference owner named r.scheme))
        (λ e. fail (
          errorf_w ("can't set Pod '" <> owner.namespace <> "/" <> name <> "' owner reference: ")
            e))
        λ refs. pure (dress owner name pod refs)

  unfoldable pub generate_pod : ServiceReconciler L → Service → M (World C) Pod
  unfolding adorn
  generate_pod r owner =
      handle (lift (L.unmarshal_pod r.pod_template))
        (λ e. fail (errorf_w "unable parse yaml from pod template, err: " e))
        λ pod.
          let base_name = if pod.name == "" then default_base_name else pod.name in
          silently (C.generate_name (base_name <> "-" <> owner.name)) >>= adorn r owner pod

  unfoldable pub claimed_or_error : List Pod × Option GoError → M (World C) (List Pod)
  claimed_or_error (claimed, some e) = fail e
  claimed_or_error (claimed, none) = pure claimed

  unfoldable pub claim_pods : ServiceReconciler L → Service → List Pod → M (World C) (List Pod)
  unfolding new_ref_manager claim_owned_objects claimed_or_error
  claim_pods r s pods = do
    mgr ← new_ref_manager L C (selector_of s) s (some r.scheme)
    found ← claim_owned_objects L C mgr pods []
    claimed_or_error found

  -- A round of a deletion loop in front of the rest: a pod that is gone is no error.
  unfoldable pub note_error :
      (GoError → GoError) → M (World C) (List GoError) → GoError → M (World C) (List GoError)
  note_error wording rest e =
      rest >>= λ errors. pure (if L.is_not_found e then errors else wording e ∷ errors)

  -- The two loops of Reconcile that delete pods, with the errors that they gather.
  unfoldable pub delete_pods : (GoError → GoError) → List Pod → M (World C) (List GoError)
  unfolding note_error
  delete_pods wording [] = pure []
  delete_pods wording (p ∷ ps) =
      let rest = delete_pods wording ps in
      handle (perform (Call.delete_pod p) (C.delete_pod p)) (note_error wording rest) (λ _. rest)

  -- The end of the branch for a service that is to have no pod: its finalizer goes.
  unfoldable pub drop_finalizer : ObjectKey → Service → List GoError → M (World C) (Unit {0})
  drop_finalizer req s errors =
      let bare = with_finalizers s (L.without s.finalizers finalizer_name) in
      handle (perform (Call.update_service bare) (C.update_service bare))
        (λ e.
          let failed =
            errorf_w ("unable remove finalizers for service '" <> request_text req <> "', err: ")
              e in
          return_error (L.new_aggregate (map some (errors ++ failed ∷ []))))
        λ _. return_error (L.new_aggregate (map some errors))

  unfoldable pub clean_up : ObjectKey → Service → List Pod → M (World C) (Unit {0})
  unfolding delete_pods drop_finalizer
  clean_up req s claimed =
      delete_pods (errorf_w ("unable delete pod '" <> request_text req <> "', err: ")) claimed
      >>= drop_finalizer req s

  unfoldable pub add_finalizer : ObjectKey → Service → M (World C) Service
  add_finalizer req s =
      if L.contains s.finalizers finalizer_name
      then pure s
      else let held = with_finalizers s (s.finalizers ++ finalizer_name ∷ []) in
        handle (perform (Call.update_service held) (C.update_service held))
          (λ e.
            fail (
              errorf_w ("unable add finalizers for service '" <> request_text req <> "', err: ") e))
          pure

  unfoldable pub create_pod : Pod → M (World C) (Unit {0})
  create_pod pod =
      handle (perform (Call.create_pod pod) (C.create_pod pod))
        (λ e. fail (errorf_w ("unable create frp pod '" <> L.pod_text pod <> "',err: ") e))
        λ _. pure tt

  unfoldable pub create_missing : ServiceReconciler L → List Pod → Service → M (World C) (Unit {0})
  unfolding generate_pod create_pod
  create_missing r [] s =
      handle (generate_pod r s)
        (λ e. fail (errorf_w "unable generate pod from podTemplate, err: " e)) create_pod
  create_missing r (_ ∷ _) s = pure tt

  unfoldable pub provision :
      ServiceReconciler L → ObjectKey → Service → List Pod → M (World C) (Unit {0})
  unfolding add_finalizer create_missing
  provision r req s claimed = add_finalizer req s >>= create_missing r claimed

  -- Reconcile behind the deletion of the inactive pods.
  unfoldable pub settle_service :
      ServiceReconciler L → ObjectKey → Service → List Pod → List GoError → M (World C) (Unit {0})
  unfolding clean_up provision is_retired
  settle_service r req s claimed (e ∷ errors) =
      return_error (L.new_aggregate (map some (e ∷ errors)))
  settle_service r req s claimed [] =
      if is_retired s then clean_up req s claimed else provision r req s claimed

  -- Reconcile behind `getOwnedPods`.
  unfoldable pub reconcile_pods :
      ServiceReconciler L → ObjectKey → Service → List Pod × List Pod → M (World C) (Unit {0})
  unfolding claim_pods delete_pods settle_service
  reconcile_pods r req s (active, inactive) = do
    claimed ← claim_pods r s active
    errors ← delete_pods (λ e. e) inactive
    settle_service r req s claimed errors

  unfoldable pub reconcile_service :
      ServiceReconciler L → ObjectKey → Service → M (World C) (Unit {0})
  unfolding get_owned_pods reconcile_pods
  reconcile_service r req s = get_owned_pods s >>= reconcile_pods r req s

  unfoldable pub reconcile : ServiceReconciler L → ObjectKey → M (World C) (Unit {0})
  unfolding reconcile_service
  reconcile r req =
      handle (perform (Call.get_service req) (C.get_service req))
        (λ e. if L.is_not_found e then pure tt else fail e) (reconcile_service r req)
