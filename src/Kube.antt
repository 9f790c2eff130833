-- ===== src/Kube.antt =====
-- The Kubernetes side: its objects, the vendored libraries and the client.
pub mod Objects
mod Libraries
mod Server
mod Log
mod Filling
pub mod Samples
pub use Objects.*
pub use Libraries.*
pub use Server.{Client, Call, World, perform, silently}
pub use Log.*
pub use Filling.*
