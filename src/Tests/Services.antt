-- ===== src/Tests/Services.antt =====
-- The service reconciler and the login check at concrete objects.
use frp_provisioner.Prelude.{true, false, [], ◌∷◌, ◌++◌, map, List, ◌≡◌, ◌⊎◌, refl, is_empty}
use frp_provisioner.Go.{ok, lookup}
use frp_provisioner.Kube.{ObjectKey, Pod, with_finalizers, Call, World, Made}
use frp_provisioner.Kube.Samples.{libraries, libraries-IsLawful}
use frp_provisioner.RefManager.{claim_owned_objects, claim_object, held}
use frp_provisioner.Service.{
  IsSplit, IsActivePod, get_owned_pods, get_owned_pods-eq-ok, generate_pod, clean_up, provision,
  reconcile_pods, IsPodFor, MakesPodFor, generate_pod-IsPodFor, manager, matches, IsAction,
  reconcile_pods-Made, clean_up-calls, finalizer_calls, provision-calls, reconcile_pods-deleted,
}
use frp_provisioner.Tests.Login.{host}
use frp_provisioner.FrpClient.{validate_frp_server_config, validate_frp_server_config-gives_back}
use frp_provisioner.Tests.Cluster.{
  web_labels, cluster, cluster-KeepsIdentity, web, web_deleted, ours, stray, orphan, gone, start,
  reconciler, spec,
}

abbrev request : ObjectKey
request = record { namespace = "shop"; name = "web" }

generate_pod-IsPodFor_example :
    MakesPodFor libraries web (generate_pod libraries cluster reconciler web start).0
generate_pod-IsPodFor_example =
    generate_pod-IsPodFor libraries cluster libraries-IsLawful reconciler web start

reconcile_pods-Made_example :
    Made
      (IsAction libraries cluster reconciler web (stray ∷ orphan ∷ []) (gone ∷ []))
      []
      (reconcile_pods libraries cluster reconciler request web
        (stray ∷ orphan ∷ [], gone ∷ [])
        start).1
reconcile_pods-Made_example =
    reconcile_pods-Made libraries cluster libraries-IsLawful cluster-KeepsIdentity reconciler
      request web (stray ∷ orphan ∷ []) (gone ∷ []) start

clean_up-calls_example :
    (clean_up libraries cluster request web_deleted (ours ∷ []) start).1.calls
    ≡ []
      ++ map Call.delete_pod (ours ∷ [])
      ++ Call.update_service (with_finalizers web_deleted []) ∷ []
unfolding clean_up
clean_up-calls_example = clean_up-calls libraries cluster request web_deleted (ours ∷ []) start tt

abbrev provisioned : World cluster
provisioned = (provision libraries cluster reconciler request web [] start).1

provisions : provision libraries cluster reconciler request web [] start ≡ (ok tt, provisioned)
unfolding provision
provisions = refl

provision-calls_example :
    ((is_empty {A = Pod} [] ≡ false) × (provisioned.calls ≡ [] ++ finalizer_calls libraries web))
    ⊎ ((is_empty {A = Pod} [] ≡ true)
        × ((p : Pod) × IsPodFor libraries web p
            × (provisioned.calls
                ≡ ([] ++ finalizer_calls libraries web) ++ Call.create_pod p ∷ [])))
provision-calls_example =
    provision-calls libraries cluster libraries-IsLawful cluster-KeepsIdentity reconciler request
      web [] start provisioned provisions

abbrev torn_down : World cluster
torn_down =
    (reconcile_pods libraries cluster reconciler request web_deleted (ours ∷ orphan ∷ [], gone ∷ [])
      start).1

tears_down :
    reconcile_pods libraries cluster reconciler request web_deleted
      (ours ∷ orphan ∷ [], gone ∷ [])
      start
    ≡ (ok tt, torn_down)
unfolding reconcile_pods claim_owned_objects claim_object lookup
tears_down = refl

reconcile_pods-deleted_example :
    torn_down.calls
    ≡ ([] ++ map Call.delete_pod (gone ∷ []))
      ++ map Call.delete_pod (
          held libraries
            (manager libraries cluster reconciler web_deleted)
            (matches libraries cluster reconciler web_deleted)
            (ours ∷ orphan ∷ []))
      ++ Call.update_service (with_finalizers web_deleted []) ∷ []
reconcile_pods-deleted_example =
    reconcile_pods-deleted libraries cluster libraries-IsLawful reconciler request web_deleted
      (ours ∷ orphan ∷ []) (gone ∷ []) "12:00" start torn_down refl tears_down

validate_frp_server_config-gives_back_example :
    ((validate_frp_server_config cluster host spec start).1.calls
      ≡ [] ++ Call.get_secret (record { namespace = "shop"; name = "tls" }) ∷ [])
    × ((validate_frp_server_config cluster host spec start).1.temp_files ≡ [])
    × ((validate_frp_server_config cluster host spec start).1.connectors ≡ 0)
    × ((validate_frp_server_config cluster host spec start).1.connections ≡ 0)
validate_frp_server_config-gives_back_example =
    validate_frp_server_config-gives_back cluster host spec start

abbrev two_pods : World cluster
two_pods = record start { store = record start.store { pods = gone ∷ ours ∷ [] } }

listing :
    get_owned_pods libraries cluster web two_pods
    ≡ (ok (ours ∷ [], gone ∷ []), (get_owned_pods libraries cluster web two_pods).1)
unfolding get_owned_pods
listing = refl

get_owned_pods-eq-ok_example :
    (ps : List Pod) × (cluster.list_pods "shop" web_labels two_pods.store
      ≡ (ok ps, (get_owned_pods libraries cluster web two_pods).1.store))
    × IsSplit IsActivePod ps (ours ∷ []) (gone ∷ [])
get_owned_pods-eq-ok_example =
    get_owned_pods-eq-ok libraries cluster web two_pods
      (get_owned_pods libraries cluster web two_pods).1 (ours ∷ []) (gone ∷ []) listing
