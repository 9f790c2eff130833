-- ===== src/Tests/Grants.antt =====
-- The reference manager at a server that grants every request.
use frp_provisioner.Prelude.{false, List, [], ◌∷◌, ◌++◌, none, ◌≡◌, refl}
use frp_provisioner.Go.{ok}
use frp_provisioner.Kube.{Pod, Client, World}
use frp_provisioner.Kube.Samples.{libraries}
use frp_provisioner.RefManager.{
  match_object, claim_owned_objects, Grants, results, requests, claim_owned_objects-refines,
}
use frp_provisioner.Tests.Cluster.{
  cluster, web, reference_to_web, ours, stray, orphan, frps, manager_of,
}

abbrev granting : Client
granting = record cluster { get_object = λ kind key s. (ok web.metadata, s) }

abbrev begin : World granting
begin = record {
  store = record { service = web; pods = []; server = frps };
  calls = [];
  once = none;
  temp_files = [];
  connectors = 0;
  connections = 0;
}

-- The references of an orphan that web adopts.
sets_reference :
    (o : Pod)
    → libraries.get_controller_of o.owner_references ≡ none
    → libraries.set_controller_reference web o tt ≡ ok (reference_to_web ∷ o.owner_references)
sets_reference o h = rw h refl

grants : Grants libraries granting (manager_of web)
grants = record {
  alive = refl;
  schema = tt;
  has_schema = refl;
  object_kind = "Service";
  object_kinds = [];
  knows_kinds = refl;
  kind = "Service";
  makes = refl;
  refs = λ o. reference_to_web ∷ o.owner_references;
  sets = sets_reference;
  updates = λ p s. (s, refl);
  reads = λ s. (s, refl);
}

abbrev listed : List Pod
listed = ours ∷ stray ∷ orphan ∷ []

claim_owned_objects-refines_example :
    (u : World granting) × (claim_owned_objects libraries granting (manager_of web) listed [] begin
      ≡ (
        ok (
          results libraries granting
              (manager_of web)
              grants
              (match_object libraries (manager_of web) [])
              listed,
          none,
        ),
        u,
      ))
    × (u.calls
        ≡ []
          ++ requests libraries granting
              (manager_of web)
              grants
              (match_object libraries (manager_of web) [])
              false
              listed)
claim_owned_objects-refines_example =
    claim_owned_objects-refines libraries granting (manager_of web) grants [] listed begin refl
