-- ===== src/Service.antt =====
-- pkg/controller/service_controller.go: the service reconciler.
mod Defs
mod Pods
mod Actions
mod Identity
mod Requests
mod Traces
mod Provision
mod Deletion
mod Listing
mod Steady
mod Store
mod Provided
mod Converges
pub use Defs.{ServiceReconciler}
unfoldable pub use Defs.{
  is_pod_active, selector_of, is_retired, generate_pod, clean_up, provision, reconcile_pods,
  get_owned_pods, reconcile,
}
pub use Pods.{IsPodFor, MakesPodFor, generate_pod-IsPodFor}
pub use Actions.{KeepsIdentity, manager, matches, IsAction}
pub use Requests.{reconcile_pods-Made}
pub use Traces.{Returned, clean_up-calls}
pub use Provision.{finalizer_calls, provision-calls}
pub use Deletion.{reconcile_pods-deleted}
unfoldable pub use Listing.{get_frp_servers, is_frp_server_active}
pub use Listing.{IsSplit, IsActivePod, IsActiveServer, get_owned_pods-eq-ok, get_frp_servers-eq-ok}
pub use Store.{Holdings, IsStore, IsProvided}
pub use Converges.{reconcile-converges}
