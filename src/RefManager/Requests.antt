-- ===== src/RefManager/Requests.antt =====
-- Which requests the reference manager makes, and how often.
use frp_provisioner.Prelude.{Bool, List, ◌≡◌, refl, ◌⊎◌}
use frp_provisioner.Go.{Keeps, >>=-Keeps}
use frp_provisioner.Kube.{
  ObjectKey, Pod, Machinery, IsLawful, Client, Call, World, Made, perform-Made, Made-start,
}
use frp_provisioner.RefManager.Owner.{RefManager, can_adopt_once, read_owner}
use frp_provisioner.RefManager.Defs.{match_object, claim_loop, claim_owned_objects}
use frp_provisioner.RefManager.Reading.{can_adopt_once-Keeps}
use frp_provisioner.RefManager.Updates.{IsAdoption, IsRelease}
use frp_provisioner.RefManager.Induction.{claim_loop-Keeps}

module _ (L : Machinery) (C : Client) (mgr : RefManager L) (matches : Pod → Bool) where
  abbrev pub IsRequest : List Pod → Call → Type 0
  IsRequest listed (Call.get_object _ key) =
      (key.namespace ≡ mgr.owner.namespace) × (key.name ≡ mgr.owner.name)
  IsRequest listed (Call.update_pod p) =
      IsAdoption L C mgr matches listed p ⊎ IsRelease L C mgr matches listed p
  IsRequest listed _ = ⊥

-- Whatever the server answers, ClaimOwnedObjects makes three kinds of requests: it reads the service
-- anew, it updates a listed orphan that passes the match so that the service controls it, and it
-- updates a listed pod of the service that fails the match so that the first reference to the
-- service is gone. No update is made for a pod that another object controls, or while the service is being deleted.
pub claim_owned_objects-Made :
    (L : Machinery) (C : Client)
    → IsLawful L
    → (mgr : RefManager L) (filters : List (Pod → Bool)) (listed : List Pod) (w : World C)
    → Made
        (IsRequest L C mgr (match_object L mgr filters) listed)
        w.calls
        (claim_owned_objects L C mgr listed filters w).1
unfolding claim_owned_objects read_owner
claim_owned_objects-Made L C lawful mgr filters listed w =
    let matches = match_object L mgr filters in
    let P = IsRequest L C mgr matches listed in
    let key : ObjectKey = record { namespace = mgr.owner.namespace; name = mgr.owner.name } in
    let checks : Keeps (Made P w.calls) (can_adopt_once L C mgr) =
      can_adopt_once-Keeps L C mgr (Made P w.calls)
        (λ kind.
          perform-Made P w.calls (Call.get_object kind key) (C.get_object kind key) (refl, refl))
        (λ r u h. h) in
    let keeps : Keeps (Made P w.calls) (claim_loop L C mgr matches listed) =
      claim_loop-Keeps L C lawful mgr matches listed (Made P w.calls) (λ alive. checks)
        (λ p h. perform-Made P w.calls (Call.update_pod p) (C.update_pod p) h) listed (λ p a. a) in
    >>=-Keeps (Made P w.calls) (claim_loop L C mgr matches listed) _ keeps (λ r u h. h) w
      (Made-start P w)
