-- ===== src/RefManager.antt =====
-- pkg/utils/controller: the reference manager.
mod Owner
mod Defs
mod Claiming
mod Updates
mod Induction
mod Reading
mod Requests
mod Once
mod Deleted
mod Missing
mod Kept
mod Spec
mod Granted
mod Refines
pub use Owner.{RefManager}
unfoldable pub use Owner.{new_ref_manager, can_adopt_once, can_adopt}
unfoldable pub use Defs.{
  owner_index, match_object, release, adopt, claim_object, claim_owned_objects,
}
pub use Claiming.{Claims, ClaimedFrom, claim_owned_objects-ClaimedFrom}
pub use Updates.{Among, IsAdoption, IsRelease}
pub use Deleted.{held, claim_owned_objects-deleted}
pub use Requests.{IsRequest, claim_owned_objects-Made}
pub use Once.{owner_reads, claim_owned_objects-reads}
pub use Missing.{claim_object-adoptable}
pub use Spec.{Grants, results, requests}
pub use Refines.{claim_owned_objects-refines}
pub use Kept.{IsHeld, claim_owned_objects-held}
