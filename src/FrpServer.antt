-- ===== src/FrpServer.antt =====
-- pkg/controller: the reconciler and the webhooks of frp servers.
mod Defs
mod Status
mod Defaults
mod Webhook
mod Reflect
mod Fields
mod Admission
unfoldable pub use Defs.{
  healthy_status, unhealthy_status, with_status, inspect, reconcile_frp_server,
}
pub use Status.{Settled, Reports, Follows, reconcile_frp_server-eq-ok, inspect-Follows}
unfoldable pub use Defaults.{default, finish_defaults, default_spec}
pub use Defaults.{default-default}
unfoldable pub use Webhook.{validate_create, validate_update}
pub use Fields.{IsWellFormed}
pub use Admission.{IsPort, validate_create-admits, validate_update-admits}
