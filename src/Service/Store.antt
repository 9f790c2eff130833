-- ===== src/Service/Store.antt =====
-- What a server promises that nobody else writes to, and what provision brings about in it.
use frp_provisioner.Prelude.{
  String, true, false, All, List, [], ◌∷◌, ◌++◌, ◌≡◌, ◌≢◌, refl, ap, ◌∙◌, inl, inr, Bool-cases,
  if◌then◌else◌, ◌==◌, eq_refl,
}
use frp_provisioner.Go.{StringMap, ok, M, lift, handle-Keeps, >>=-Keeps}
use frp_provisioner.Kube.{
  ObjectKey, Pod, Service, Machinery, IsLawful, Selects, Client, Call, World, perform, silently,
}
use frp_provisioner.Api.{finalizer_name}
use frp_provisioner.Service.Defs.{
  ServiceReconciler, selector_of, is_retired, is_pod_active, adorn, generate_pod,
}
use frp_provisioner.Service.Pods.{IsPodFor, labels_of}

-- What the server holds: one service, and the pods of a namespace that carry some labels.
pub record Holdings (C : Client) : Type 0 where
  pub service_of : C.State → Service
  pub pods_of : C.State → String → StringMap → List Pod

module _ {C : Client} (O : Holdings C) where
  -- The server holds the same.
  abbrev pub IsQuiet : C.State → C.State → Type 0
  IsQuiet t u = (O.service_of u ≡ O.service_of t) × (O.pods_of u ≡ O.pods_of t)

  -- Reads return what is held and change nothing of it, a service is held as it was sent, and a created
  -- pod, which then is neither finished nor deleted, is listed with what else is. Calls may still fail.
  pub record IsStore (req : ObjectKey) : Type 0 where
    pub gets :
        (s : Service) (t u : C.State)
        → C.get_service req t ≡ (ok s, u)
        → (s ≡ O.service_of t) × IsQuiet t u
    pub lists :
        (namespace : String) (set : StringMap) (ps : List Pod) (t u : C.State)
        → C.list_pods namespace set t ≡ (ok ps, u)
        → (ps ≡ O.pods_of t namespace set) × IsQuiet t u
    pub draws : (base : String) (t : C.State) → IsQuiet t (C.generate_name base t).1
    pub updates :
        (s a : Service) (t u : C.State)
        → C.update_service s t ≡ (ok a, u)
        → s.uid ≡ (O.service_of t).uid
        → (a ≡ s) × (O.service_of u ≡ s) × (O.pods_of u ≡ O.pods_of t)
    pub creates :
        (p q : Pod) (t u : C.State) (set : StringMap)
        → C.create_pod p t ≡ (ok q, u)
        → Selects set (labels_of p.labels)
        → (O.service_of u ≡ O.service_of t)
          × (O.pods_of u p.namespace set ≡ q ∷ O.pods_of t p.namespace set)
          × (q.namespace ≡ p.namespace)
          × (q.labels ≡ p.labels)
          × (q.owner_references ≡ p.owner_references)
          × (is_pod_active q ≡ true)

  -- The service is as it is to be, and has one pod or more, all of them active and its own.
  pub record IsProvided (L : Machinery) (s : Service) (t : C.State) : Type 0 where
    pub held : O.service_of t ≡ s
    pub finalized : L.contains s.finalizers finalizer_name ≡ true
    pub exposed : is_retired s ≡ false
    pub some_pod : O.pods_of t s.namespace (selector_of s) ≢ []
    pub active : All (λ p. is_pod_active p ≡ true) (O.pods_of t s.namespace (selector_of s))
    pub own : All (IsPodFor L s) (O.pods_of t s.namespace (selector_of s))

pub performed :
    {C : Client}
    → {A : Type 0} → (c : Call) (m : M C.State A) (w u : World C) (a : A)
    → perform c m w ≡ (ok a, u)
    → m w.store ≡ (ok a, u.store)
performed c m w u a e = ap (λ x. (x.0, x.1.store)) e

pub contains-append :
    (L : Machinery)
    → IsLawful L
    → (xs : List String) (x : String) → L.contains (xs ++ x ∷ []) x ≡ true
contains-append L lawful [] x = rw (lawful.contains-cons x x [], eq_refl x) refl
contains-append L lawful (y ∷ xs) x = elim (Bool-cases (y == x)) [
  | inl same ↦ rw (lawful.contains-cons x y (xs ++ x ∷ []), same) refl
  | inr differs ↦
      rw (lawful.contains-cons x y (xs ++ x ∷ []), differs, if◌then◌else◌)
        (contains-append L lawful xs x)
]

module _ (L : Machinery) (C : Client) (lawful : IsLawful L) (O : Holdings C) (req : ObjectKey)
    (store : IsStore O req) (r : ServiceReconciler L) where
  pub generate_pod-IsQuiet :
      (s : Service) (w : World C) → IsQuiet O w.store (generate_pod L C r s w).1.store
  unfolding generate_pod adorn
  generate_pod-IsQuiet s w =
      let I = λ (u : World C). IsQuiet O w.store u.store in
      handle-Keeps I (lift (L.unmarshal_pod r.pod_template)) _ _ (λ u k. k) (λ e u k. k)
        (λ template.
          >>=-Keeps I (silently (C.generate_name _)) (adorn L C r s template)
            (λ u k. let q = store.draws _ u.store in (q.0 ∙ k.0, q.1 ∙ k.1))
            (λ name.
              handle-Keeps I (lift (L.set_controller_reference s _ r.scheme)) _ _ (λ u k. k)
                (λ e u k. k) (λ refs u k. k)))
        w (refl, refl)
