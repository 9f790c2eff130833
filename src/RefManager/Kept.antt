-- ===== src/RefManager/Kept.antt =====
-- ClaimOwnedObjects of pods that are the service's already.
use frp_provisioner.Prelude.{Bool, true, All, List, [], ◌∷◌, ◌≡◌, refl, eq_iff}
use frp_provisioner.Go.{ok}
use frp_provisioner.Kube.{Pod, Machinery, ControlledBy, Client, World}
use frp_provisioner.RefManager.Owner.{RefManager}
use frp_provisioner.RefManager.Defs.{match_object, claim_object, claim_loop, claim_owned_objects}

module _ (L : Machinery) (C : Client) (mgr : RefManager L) (matches : Pod → Bool) where
  -- The service controls the pod, and the pod matches.
  abbrev pub IsHeld : Pod → Type 0
  IsHeld o = ControlledBy L mgr.owner.uid o.owner_references × (matches o ≡ true)

  claim_object-held :
      (o : Pod) (w : World C) → IsHeld o → claim_object L C mgr o matches w ≡ (ok (true, o), w)
  unfolding claim_object
  claim_object-held o w ((ref, controls, same), fits) =
      rw (controls, (eq_iff ref.uid mgr.owner.uid).1 same, fits) refl

  claim_loop-held :
      (os : List Pod) (w : World C)
      → All IsHeld os
      → claim_loop L C mgr matches os w ≡ (ok (os, []), w)
  unfolding claim_loop
  claim_loop-held [] w h = refl
  claim_loop-held (o ∷ os) w (h, hs) = rw (claim_object-held o w h, claim_loop-held os w hs) refl

pub claim_owned_objects-held :
    (L : Machinery) (C : Client) (mgr : RefManager L) (filters : List (Pod → Bool)) (os : List Pod)
    (w : World C)
    → All (IsHeld L C mgr (match_object L mgr filters)) os
    → claim_owned_objects L C mgr os filters w ≡ (ok (os, L.new_aggregate []), w)
unfolding claim_owned_objects
claim_owned_objects-held L C mgr filters os w h =
    rw (claim_loop-held L C mgr (match_object L mgr filters) os w h) refl
