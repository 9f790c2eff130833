-- ===== src/Service/Deletion.antt =====
-- Reconcile for a service that is being deleted.
use mathlib.Core.Path.{subst}
use frp_provisioner.Prelude.{
  String, true, List, [], ◌∷◌, ◌++◌, map, none, some, ◌≡◌, refl, sym, ◌∙◌, ap, arith, if◌then◌else◌,
}
use frp_provisioner.Go.{GoError, ok, Result, return_error-eq-ok, ◌>>=◌, >>=-eq-ok}
use frp_provisioner.Kube.{
  ObjectKey, Pod, Service, with_finalizers, Machinery, IsLawful, Client, Call, World,
}
use frp_provisioner.Api.{finalizer_name}
use frp_provisioner.RefManager.{held, claim_owned_objects-deleted}
use frp_provisioner.Service.Defs.{
  ServiceReconciler, is_retired, claim_pods, claimed_or_error, delete_pods, clean_up,
  settle_service, reconcile_pods,
}
use frp_provisioner.Service.Actions.{manager, matches}
use frp_provisioner.Service.Traces.{Returned, delete_pods-calls, clean_up-calls}

module _ (L : Machinery) (C : Client) (lawful : IsLawful L) (r : ServiceReconciler L)
    (req : ObjectKey) (s : Service) (t : String) (deleted : s.deletion_timestamp ≡ some t) where
  is_retired-deleted : is_retired s ≡ true
  unfolding is_retired
  is_retired-deleted = ground arith

  claim_pods-deleted :
      (active : List Pod) (w : World C)
      → claim_pods L C r s active w
        ≡ (ok (held L (manager L C r s) (matches L C r s) active), record w { once = none })
  unfolding claim_pods claimed_or_error
  claim_pods-deleted active w = rw (
    claim_owned_objects-deleted L C (manager L C r s) [] active t (record w { once = none })
        deleted,
    lawful.new_aggregate_nil [] tt,
  )

  -- Errors of the deletion of inactive pods end the call with an error.
  settled :
      (claimed : List Pod) (errors : List GoError) (w w' : World C)
      → settle_service L C r req s claimed errors w ≡ (ok tt, w')
      → (errors ≡ []) × (clean_up L C req s claimed w ≡ (ok tt, w'))
  unfolding settle_service
  settled claimed [] w w' h = (refl, rw (is_retired-deleted, if◌then◌else◌) at h)
  settled claimed (e ∷ errors) w w' h =
      let errs = map some (e ∷ errors) in
      let all = lawful.new_aggregate_all errs (return_error-eq-ok (L.new_aggregate errs) w w' h) in
      let never : some e ≡ none = all.0 in absurd (cc)

-- If Reconcile succeeds for a service that is being deleted, after listing its pods, then it asked for
-- these and nothing else, in this order: the deletion of each inactive pod, the deletion of each
-- active pod that the service controls and that carries its labels, and the service without its finalizer.
pub reconcile_pods-deleted :
    (L : Machinery) (C : Client)
    → IsLawful L
    → (r : ServiceReconciler L) (req : ObjectKey) (s : Service) (active inactive : List Pod)
      (t : String) (w w' : World C)
    → s.deletion_timestamp ≡ some t
    → reconcile_pods L C r req s (active, inactive) w ≡ (ok tt, w')
    → w'.calls
      ≡ (w.calls ++ map Call.delete_pod inactive)
        ++ map Call.delete_pod (held L (manager L C r s) (matches L C r s) active)
        ++ Call.update_service (with_finalizers s (L.without s.finalizers finalizer_name)) ∷ []
unfolding reconcile_pods
reconcile_pods-deleted L C lawful r req s active inactive t w w' deleted h =
    let kill = delete_pods L C (λ e. e) inactive in
    let after = λ (claimed : List Pod). kill >>= settle_service L C r req s claimed in
    let (claimed, u, e, k) = >>=-eq-ok (claim_pods L C r s active) after w h in
    let (errors, v, p, q) = >>=-eq-ok kill (settle_service L C r req s claimed) u k in
    let (none_left, done) = settled L C lawful r req s t deleted claimed errors v w' q in
    let found = sym (claim_pods-deleted L C lawful r req s t deleted active w) ∙ e in
    let same : held L (manager L C r s) (matches L C r s) active ≡ claimed = ground arith in
    let start : w.calls ≡ u.calls = ap (λ (x : Result (List Pod) × World C). x.1.calls) found in
    let bare = with_finalizers s (L.without s.finalizers finalizer_name) in
    let tail = λ (l : List Call) (ps : List Pod).
      l ++ map Call.delete_pod ps ++ Call.update_service bare ∷ [] in
    let cleaned =
      clean_up-calls L C req s claimed v
        (subst (λ (x : Result (Unit {0}) × World C). Returned x.0) (sym done) tt) in
    let killed =
      delete_pods-calls L C (λ e. e) inactive u p
      ∙ ap (λ l. l ++ map Call.delete_pod inactive) (sym start) in
    sym (ap (λ (x : Result (Unit {0}) × World C). x.1.calls) done)
    ∙ cleaned
    ∙ ap (λ l. tail l claimed) killed
    ∙ ap (tail (w.calls ++ map Call.delete_pod inactive)) (sym same)
