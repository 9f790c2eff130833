-- ===== src/RefManager/Deleted.antt =====
-- ClaimOwnedObjects for a service that is being deleted.
use frp_provisioner.Prelude.{
  String, Bool, false, ◌&&◌, List, [], ◌∷◌, Option, none, some, ◌==◌, ◌≡◌, refl, arith,
  if◌then◌else◌,
}
use frp_provisioner.Go.{ok}
use frp_provisioner.Kube.{OwnerReference, Pod, Machinery, Client, World}
use frp_provisioner.RefManager.Owner.{RefManager}
use frp_provisioner.RefManager.Defs.{
  match_object, claim_loop, claim_owned_objects, claim_object, claim_by,
}

module _ (L : Machinery) (mgr : RefManager L) where
  abbrev controlled : Option OwnerReference → Bool
  controlled none = false
  controlled (some ref) = ref.uid == mgr.owner.uid

  -- The pods that the service controls and that pass the match, in order.
  abbrev pub held : (Pod → Bool) → List Pod → List Pod
  held matches [] = []
  held matches (o ∷ os) =
      if controlled (L.get_controller_of o.owner_references) && matches o
      then o ∷ held matches os
      else held matches os

  module _ (C : Client) (t : String) (deleted : mgr.owner.deletion_timestamp ≡ some t)
      (matches : Pod → Bool) where
    claim_by-deleted :
        (o : Pod) (r : Option OwnerReference) (w : World C)
        → claim_by L C mgr o matches r w ≡ (ok (controlled r && matches o, o), w)
    unfolding claim_by
    claim_by-deleted o none w = ground arith
    claim_by-deleted o (some ref) w = ground arith

    claim_loop-deleted :
        (os : List Pod) (w : World C)
        → claim_loop L C mgr matches os w ≡ (ok (held matches os, []), w)
    unfolding claim_loop claim_object
    claim_loop-deleted [] w = refl
    claim_loop-deleted (o ∷ os) w = ground (
      arith,
      claim_by-deleted o (L.get_controller_of o.owner_references) w,
      claim_loop-deleted os w,
    )

-- While the service is being deleted, ClaimOwnedObjects makes no request: it returns the listed pods
-- that the service controls and that pass the match, in order, and no error but an aggregate of none.
pub claim_owned_objects-deleted :
    (L : Machinery) (C : Client) (mgr : RefManager L) (filters : List (Pod → Bool))
    (listed : List Pod) (t : String) (w : World C)
    → mgr.owner.deletion_timestamp ≡ some t
    → claim_owned_objects L C mgr listed filters w
      ≡ (ok (held L mgr (match_object L mgr filters) listed, L.new_aggregate []), w)
unfolding claim_owned_objects
claim_owned_objects-deleted L C mgr filters listed t w deleted =
    rw (claim_loop-deleted L mgr C t deleted (match_object L mgr filters) listed w)
