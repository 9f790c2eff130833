-- ===== src/FrpClient.antt =====
-- pkg/utils/frpclient: the login that checks the configuration of an frp server.
mod Config
mod Outside
mod Defs
mod Balance
mod Resources
pub use Balance.{secret_calls}
pub use Resources.{validate_frp_server_config-gives_back}
pub use Config.*
pub use Outside.*
unfoldable pub use Defs.{validate_port, validate_frp_server_config}
