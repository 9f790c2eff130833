-- ===== src/Service/Pods.antt =====
-- The pods that generatePod makes: they are found again by getOwnedPods and claimed as they are.
use frp_provisioner.Prelude.{String, List, [], Option, none, some, ◌≡◌, refl, ◌∙◌}
use frp_provisioner.Go.{
  handle-Returns, lift-Returns, StringMap, insert, lookup-insert, ok, lift, Result,
}
use frp_provisioner.Kube.{
  OwnerReference, Pod, Service, Machinery, IsLawful, ControlledBy, Selects, Client, World, silently,
}
use frp_provisioner.Api.{label_service_name_key, label_controller_uid_key}
use frp_provisioner.Service.Defs.{
  ServiceReconciler, selector_of, dress, labels_or_new, adorn, generate_pod,
}

abbrev pub labels_of : Option StringMap → StringMap
labels_of none = []
labels_of (some labels) = labels

-- In the namespace of the service, with the labels that it lists by, and controlled by it.
abbrev pub IsPodFor : Machinery → Service → Pod → Type 0
IsPodFor L s p =
    (p.namespace ≡ s.namespace)
    × Selects (selector_of s) (labels_of p.labels)
    × ControlledBy L s.uid p.owner_references

dress-Selects :
    (s : Service) (name : String) (p : Pod) (refs : List OwnerReference)
    → Selects (selector_of s) (labels_of (dress s name p refs).labels)
unfolding dress
dress-Selects s name p refs =
    let m = labels_or_new p.labels in
    let named = insert label_service_name_key s.name m in
    (
      lookup-insert label_service_name_key label_controller_uid_key s.uid named
          ∙ lookup-insert label_service_name_key label_service_name_key s.name m,
      (lookup-insert label_controller_uid_key label_controller_uid_key s.uid named, tt),
    )

-- A result that, if it is a pod, is one for the service.
abbrev pub MakesPodFor : Machinery → Service → Result Pod → Type 0
MakesPodFor L s (ok p) = IsPodFor L s p
MakesPodFor L s _ = Unit

module _ (L : Machinery) (C : Client) (lawful : IsLawful L) (r : ServiceReconciler L)
    (s : Service) where
  adorn-MakesPodFor :
      (template : Pod) (name : String) (w : World C)
      → MakesPodFor L s (adorn L C r s template name w).0
  unfolding adorn
  adorn-MakesPodFor template name w =
      lift-Returns (MakesPodFor L s) (L.set_controller_reference s _ r.scheme) _ _ (λ e u. tt)
        (λ refs e u.
          (refl, dress-Selects s name template refs, lawful.controls s _ r.scheme refs e))
        (λ m. tt) w

  -- Each pod that generatePod returns lies in the namespace of the service, carries the labels by
  -- which getOwnedPods lists and claimPods matches, and has the service as its controller.
  pub generate_pod-IsPodFor : (w : World C) → MakesPodFor L s (generate_pod L C r s w).0
  unfolding generate_pod
  generate_pod-IsPodFor w =
      handle-Returns (MakesPodFor L s) (lift (L.unmarshal_pod r.pod_template)) _ _ (λ e u. tt)
        (λ template u.
          handle-Returns (MakesPodFor L s) (silently (C.generate_name _)) _ _ (λ e u. tt)
            (λ name u. adorn-MakesPodFor template name u) (λ m. tt) u)
        (λ m. tt) w
