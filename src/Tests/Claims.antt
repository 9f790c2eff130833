-- ===== src/Tests/Claims.antt =====
-- The reference manager at concrete pods.
use frp_provisioner.Prelude.{true, List, [], ◌∷◌, none, ◌≡◌, ◌≤◌, ◌+◌, refl}
use frp_provisioner.Go.{ok, lookup}
use frp_provisioner.Kube.{Pod, World, Made}
use frp_provisioner.Kube.Samples.{libraries, libraries-IsLawful}
use frp_provisioner.RefManager.{
  match_object, release, adopt, can_adopt_once, can_adopt, claim_object, claim_owned_objects,
  ClaimedFrom, IsRequest, held, owner_reads, claim_owned_objects-ClaimedFrom,
  claim_owned_objects-Made, claim_owned_objects-reads, claim_owned_objects-deleted,
  claim_object-adoptable,
}
use frp_provisioner.Tests.Cluster.{
  cluster, web, web_deleted, ours, stray, orphan, adopted, start, manager_of,
}

abbrev listed : List Pod
listed = ours ∷ stray ∷ orphan ∷ []

abbrev after_claims : World cluster
after_claims = (claim_owned_objects libraries cluster (manager_of web) listed [] start).1

-- The stray pod is released, and the orphan adopted.
claims :
    claim_owned_objects libraries cluster (manager_of web) listed [] start
    ≡ (ok (ours ∷ adopted ∷ [], none), after_claims)
unfolding claim_owned_objects claim_object lookup release adopt can_adopt_once can_adopt
claims = refl

claim_owned_objects-ClaimedFrom_example :
    ClaimedFrom libraries cluster
      (manager_of web)
      (match_object libraries (manager_of web) [])
      listed
      (ours ∷ adopted ∷ [])
claim_owned_objects-ClaimedFrom_example =
    claim_owned_objects-ClaimedFrom libraries cluster (manager_of web) [] listed start after_claims
      (ours ∷ adopted ∷ []) none claims

claim_owned_objects-Made_example :
    Made
      (IsRequest libraries cluster
        (manager_of web)
        (match_object libraries (manager_of web) [])
        listed)
      []
      after_claims
claim_owned_objects-Made_example =
    claim_owned_objects-Made libraries cluster libraries-IsLawful (manager_of web) [] listed start

claim_owned_objects-reads_example :
    owner_reads
      (claim_owned_objects libraries cluster (manager_of web) (orphan ∷ listed) [] start).1.calls
    ≤ owner_reads [] + 1
claim_owned_objects-reads_example =
    claim_owned_objects-reads libraries cluster libraries-IsLawful (manager_of web) []
      (orphan ∷ listed) start refl

claim_owned_objects-deleted_example :
    claim_owned_objects libraries cluster (manager_of web_deleted) listed [] start ≡ (
      ok (
        held libraries
            (manager_of web_deleted)
            (match_object libraries (manager_of web_deleted) [])
            listed,
        none,
      ),
      start,
    )
claim_owned_objects-deleted_example =
    claim_owned_objects-deleted libraries cluster (manager_of web_deleted) [] listed "12:00" start
      refl

abbrev after_adoption : World cluster
after_adoption =
    (claim_object libraries cluster (manager_of web) orphan
      (match_object libraries (manager_of web) []) start).1

adopts :
    claim_object libraries cluster
      (manager_of web)
      orphan
      (match_object libraries (manager_of web) [])
      start
    ≡ (ok (true, adopted), after_adoption)
unfolding claim_object match_object lookup adopt can_adopt_once can_adopt
adopts = refl

fits : match_object libraries (manager_of web) [] orphan ≡ true
unfolding match_object lookup
fits = refl

claim_object-adoptable_example : true ≡ true
claim_object-adoptable_example =
    claim_object-adoptable libraries cluster libraries-IsLawful (manager_of web)
      (match_object libraries (manager_of web) []) orphan adopted start after_adoption true refl
      refl refl fits adopts
