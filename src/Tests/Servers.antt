-- ===== src/Tests/Servers.antt =====
-- The reconciler and the webhooks of frp servers at concrete objects.
use frp_provisioner.Prelude.{List, [], ◌∷◌, ◌++◌, none, ◌≡◌, ◌↔◌, ◌⊎◌, refl}
use frp_provisioner.Prelude.Int.{pos, ◌≤ℤ◌}
use frp_provisioner.Go.{GoError, error_text, ok, err, text, lookup, differs}
use frp_provisioner.Kube.{ObjectKey, Call, World, perform}
use frp_provisioner.Kube.Samples.{libraries, libraries-IsLawful}
use frp_provisioner.Api.{FrpServer}
use frp_provisioner.FrpClient.{secret_calls, validate_frp_server_config}
use frp_provisioner.Service.{IsActiveServer, IsSplit, get_frp_servers, get_frp_servers-eq-ok}
use frp_provisioner.FrpServer.{
  Settled, Reports, Follows, reconcile_frp_server, inspect, reconcile_frp_server-eq-ok,
  inspect-Follows, default, default-default, validate_create, validate_update, IsWellFormed, IsPort,
  validate_create-admits, validate_update-admits,
}
use frp_provisioner.Tests.Cluster.{cluster, start, spec, frps}
use frp_provisioner.Tests.Login.{host, strict_host}

abbrev key : ObjectKey
key = record { namespace = ""; name = "frps" }

abbrev visited : World cluster
visited = (reconcile_frp_server libraries cluster host key start).1

visit : reconcile_frp_server libraries cluster host key start ≡ (ok tt, visited)
unfolding reconcile_frp_server validate_frp_server_config lookup
visit = refl

reconcile_frp_server-eq-ok_example :
    ((e : GoError) × (perform {C = cluster}
          (Call.get_frp_server key)
          (cluster.get_frp_server key)
          start
        ≡ (err e, visited)))
    ⊎ ((obj : FrpServer) × (u : World cluster) × (perform {C = cluster}
            (Call.get_frp_server key)
            (cluster.get_frp_server key)
            start
          ≡ (ok obj, u))
        × Settled libraries cluster libraries-IsLawful host obj u visited)
reconcile_frp_server-eq-ok_example =
    reconcile_frp_server-eq-ok libraries cluster libraries-IsLawful host key start visited visit

abbrev refused : World cluster
refused = (validate_frp_server_config cluster strict_host spec start).1

refusal :
    validate_frp_server_config cluster strict_host spec start
    ≡ (err (text "token mismatch"), refused)
unfolding validate_frp_server_config lookup
refusal = refl

inspect-Follows_example :
    (f : FrpServer) × Reports "Unhealthy" "Invalid frp config: token mismatch" "InitializeFailed"
      frps f
    × Follows libraries cluster libraries-IsLawful strict_host frps
        (text "token mismatch")
        (cluster.update_status f refused.store).0
        (inspect libraries cluster strict_host frps start).0
    × ((inspect libraries cluster strict_host frps start).1.calls
        ≡ ([] ++ secret_calls spec.transport.tls.secret_ref) ++ Call.update_status f ∷ [])
unfolding error_text
inspect-Follows_example =
    inspect-Follows libraries cluster libraries-IsLawful strict_host frps (text "token mismatch")
      start refused ((differs "Pending" "Unknown").0 refl) refusal

default-default_example :
    default libraries none (default libraries none frps).1 ≡ default libraries none frps
default-default_example = default-default libraries libraries-IsLawful none frps

abbrev admitted : World cluster
admitted = (validate_create libraries cluster host (λ _. "") spec start).1

validate_create-admits_example :
    (validate_create libraries cluster host (λ _. "") spec start ≡ (ok tt, admitted)) ↔ (
      (IsWellFormed spec × IsPort libraries libraries-IsLawful (pos 7000))
      × (validate_frp_server_config cluster host spec start ≡ (ok tt, admitted)))
validate_create-admits_example =
    validate_create-admits libraries libraries-IsLawful cluster host (λ _. "") spec start admitted

validate_update-admits_example :
    (validate_update libraries cluster host spec start ≡ (ok tt, admitted)) ↔ (
      (IsWellFormed spec × (pos 1 ≤ℤ pos 7000))
      × (validate_frp_server_config cluster host spec start ≡ (ok tt, admitted)))
validate_update-admits_example =
    validate_update-admits libraries libraries-IsLawful cluster host spec start admitted

abbrev listed : World cluster
listed = (get_frp_servers cluster start).1

servers : get_frp_servers cluster start ≡ (ok ([], frps ∷ []), listed)
unfolding get_frp_servers
servers = refl

get_frp_servers-eq-ok_example :
    (ss : List FrpServer) × (cluster.list_frp_servers start.store ≡ (ok ss, listed.store))
    × IsSplit IsActiveServer ss [] (frps ∷ [])
get_frp_servers-eq-ok_example = get_frp_servers-eq-ok cluster start listed [] (frps ∷ []) servers
