-- ===== src/Service/Actions.antt =====
-- What each stage of the service reconciler may ask of the API server.
use mathlib.Core.Path.{subst}
use frp_provisioner.Prelude.{
  Bool, true, false, List, [], ◌∷◌, ◌++◌, Option, none, some, ◌≡◌, ◌⊎◌, inl, inr, refl, arith, All,
}
use frp_provisioner.Go.{GoError, M, ok, Keeps, >>=-after, >>=-eq-ok}
use frp_provisioner.Kube.{
  Pod, Service, with_finalizers, Machinery, IsLawful, Client, Call, World, Made, Made-weaken,
}
use frp_provisioner.Api.{finalizer_name}
use frp_provisioner.RefManager.{
  RefManager, match_object, claim_owned_objects, Claims, ClaimedFrom,
  claim_owned_objects-ClaimedFrom, Among, IsAdoption, IsRelease, IsRequest,
  claim_owned_objects-Made,
}
use frp_provisioner.Service.Defs.{
  ServiceReconciler, selector_of, is_retired, claim_pods, claimed_or_error,
}
use frp_provisioner.Service.Pods.{IsPodFor}

-- The server's answer to an update of a service names the same object.
pub record KeepsIdentity (C : Client) : Type 0 where
  pub same_name :
      (s a : Service) (t u : C.State) → C.update_service s t ≡ (ok a, u) → a.name ≡ s.name
  pub same_namespace :
      (s a : Service) (t u : C.State) → C.update_service s t ≡ (ok a, u) → a.namespace ≡ s.namespace
  pub same_uid : (s a : Service) (t u : C.State) → C.update_service s t ≡ (ok a, u) → a.uid ≡ s.uid

module _ (L : Machinery) (C : Client) (r : ServiceReconciler L) (s : Service) where
  -- The manager that claimPods makes, and its match.
  abbrev pub manager : RefManager L
  manager = record { selector = selector_of s; owner = s; schema = some r.scheme }

  abbrev pub matches : Pod → Bool
  matches = match_object L manager []

  -- A pod that stands for a listed one that was claimed.
  abbrev pub IsClaimed : List Pod → Pod → Type 0
  IsClaimed active p = (o : Pod) × Among o active × Claims L C manager matches o p

  abbrev pub IsAction : List Pod → List Pod → Call → Type 0
  IsAction active inactive (Call.get_object _ key) =
      (key.namespace ≡ s.namespace) × (key.name ≡ s.name)
  IsAction active inactive (Call.update_pod p) =
      IsAdoption L C manager matches active p ⊎ IsRelease L C manager matches active p
  IsAction active inactive (Call.delete_pod p) =
      Among p inactive ⊎ ((is_retired s ≡ true) × IsClaimed active p)
  IsAction active inactive (Call.update_service t) =
      ((is_retired s ≡ true) × (t ≡ with_finalizers s (L.without s.finalizers finalizer_name)))
      ⊎ ((is_retired s ≡ false) × (t ≡ with_finalizers s (s.finalizers ++ finalizer_name ∷ [])))
  IsAction active inactive (Call.create_pod p) = (is_retired s ≡ false) × IsPodFor L s p
  IsAction active inactive _ = ⊥

  ClaimedFrom-All :
      (all os ps : List Pod)
      → ((o : Pod) → Among o os → Among o all)
      → ClaimedFrom L C manager matches os ps
      → All (IsClaimed all) ps
  ClaimedFrom-All all [] [] sub ClaimedFrom.done = tt
  ClaimedFrom-All all [] (p ∷ ps) sub t = elim t [ ]
  ClaimedFrom-All all (o ∷ os) ps sub (ClaimedFrom.skip t) =
      ClaimedFrom-All all os ps (λ x a. sub x (inr a)) t
  ClaimedFrom-All all (o ∷ os) (p ∷ ps) sub (ClaimedFrom.claim c t) =
      ((o, sub o (inl refl), c), ClaimedFrom-All all os ps (λ x a. sub x (inr a)) t)

  claimed_or_error-eq-ok :
      (found : List Pod × Option GoError) (u : World C) {ps : List Pod} {w' : World C}
      → claimed_or_error L C found u ≡ (ok ps, w')
      → found.0 ≡ ps
  unfolding claimed_or_error
  claimed_or_error-eq-ok (qs, none) u h = ground arith
  claimed_or_error-eq-ok (qs, some e) u h = ground arith

  abbrev claiming : List Pod → M (World C) (List Pod × Option GoError)
  claiming active = claim_owned_objects L C manager active []

  pub claim_pods-IsClaimed :
      (active : List Pod) (w w' : World C) (ps : List Pod)
      → claim_pods L C r s active w ≡ (ok ps, w')
      → All (IsClaimed active) ps
  unfolding claim_pods
  claim_pods-IsClaimed active w w' ps h =
      let fresh : World C = record w { once = none } in
      let ((qs, e), u, p, k) = >>=-eq-ok (claiming active) (claimed_or_error L C) fresh h in
      let same : qs ≡ ps = claimed_or_error-eq-ok (qs, e) u k in
      subst (All (IsClaimed active)) same (
        ClaimedFrom-All active active qs (λ o a. a)
          (claim_owned_objects-ClaimedFrom L C manager [] active fresh u qs e p))

  claimed_or_error-Keeps :
      (I : World C → Type 0) (found : List Pod × Option GoError)
      → Keeps I (claimed_or_error L C found)
  unfolding claimed_or_error
  claimed_or_error-Keeps I (qs, none) w h = h
  claimed_or_error-Keeps I (qs, some e) w h = h

  IsRequest→IsAction :
      (active inactive : List Pod) (c : Call)
      → IsRequest L C manager matches active c
      → IsAction active inactive c
  IsRequest→IsAction active inactive (Call.get_object _ key) h = h
  IsRequest→IsAction active inactive (Call.update_pod p) h = h
  IsRequest→IsAction active inactive (Call.get_service _) h = absurd h
  IsRequest→IsAction active inactive (Call.list_pods _ _) h = absurd h
  IsRequest→IsAction active inactive (Call.create_pod _) h = absurd h
  IsRequest→IsAction active inactive (Call.delete_pod _) h = absurd h
  IsRequest→IsAction active inactive (Call.update_service _) h = absurd h
  IsRequest→IsAction active inactive (Call.get_frp_server _) h = absurd h
  IsRequest→IsAction active inactive Call.list_frp_servers h = absurd h
  IsRequest→IsAction active inactive (Call.update_status _) h = absurd h
  IsRequest→IsAction active inactive (Call.get_secret _) h = absurd h

  pub claim_pods-Made :
      IsLawful L
      → (active inactive : List Pod) (w : World C)
      → Made (IsAction active inactive) w.calls (claim_pods L C r s active w).1
  unfolding claim_pods
  claim_pods-Made lawful active inactive w =
      let fresh : World C = record w { once = none } in
      >>=-after (Made (IsAction active inactive) w.calls) (claiming active) (claimed_or_error L C)
        fresh
        (Made-weaken (IsRequest L C manager matches active) (IsAction active inactive) w.calls
          (claiming active fresh).1 (IsRequest→IsAction active inactive)
          (claim_owned_objects-Made L C lawful manager [] active fresh))
        (claimed_or_error-Keeps (Made (IsAction active inactive) w.calls))
