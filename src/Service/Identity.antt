-- ===== src/Service/Identity.antt =====
-- The service that addFinalizer leaves names the object that it was given.
use frp_provisioner.Prelude.{
  [], ◌∷◌, ◌++◌, some, ◌≡◌, inl, inr, refl, ◌∙◌, ap, if◌then◌else◌, Bool-cases,
}
use frp_provisioner.Go.{GoError, ok, err, Result, panic, pure, fail, continue}
use frp_provisioner.Kube.{ObjectKey, Pod, Service, with_finalizers, Machinery, Client, World}
use frp_provisioner.Api.{finalizer_name}
use frp_provisioner.Service.Defs.{add_finalizer}
use frp_provisioner.Service.Pods.{IsPodFor}
use frp_provisioner.Service.Actions.{KeepsIdentity}

module _ (L : Machinery) (C : Client) (kept : KeepsIdentity C) (req : ObjectKey) (s : Service) where
  abbrev pub SameObject : Service → Type 0
  SameObject t = (t.name ≡ s.name) × (t.namespace ≡ s.namespace) × (t.uid ≡ s.uid)

  pub IsPodFor-same : (t : Service) (p : Pod) → SameObject t → IsPodFor L t p → IsPodFor L s p
  IsPodFor-same t p (name, namespace, uid) (n, (by_name, (by_uid, _)), (ref, e, u)) =
      (n ∙ namespace, (by_name ∙ ap some name, (by_uid ∙ ap some uid, tt)), (ref, e, u ∙ uid))

  abbrev pub held : Service
  held = with_finalizers s (s.finalizers ++ finalizer_name ∷ [])

  abbrev pub AddsSame : Result Service → Type 0
  AddsSame (ok t) = SameObject t
  AddsSame _ = Unit

  updated-AddsSame :
      (answer : Result Service) (t u : C.State) (w : World C) (message : GoError → GoError)
      → C.update_service held t ≡ (answer, u)
      → AddsSame (continue (answer, w) (λ e. fail (message e)) pure).0
  updated-AddsSame (ok a) t u w message e =
      (kept.same_name held a t u e, kept.same_namespace held a t u e, kept.same_uid held a t u e)
  updated-AddsSame (err x) t u w message e = tt
  updated-AddsSame (panic x) t u w message e = tt

  pub add_finalizer-AddsSame : (w : World C) → AddsSame (add_finalizer L C req s w).0
  unfolding add_finalizer
  add_finalizer-AddsSame w = elim (Bool-cases (L.contains s.finalizers finalizer_name)) [
    | inl there ↦ rw (there, if◌then◌else◌) (refl, refl, refl)
    | inr missing ↦ rw (missing, if◌then◌else◌) (updated-AddsSame _ w.store _ _ _ refl)
  ]
