-- ===== src/Startup.antt =====
-- pkg/server/server.go and pkg/utils/fieldindex/register.go: how the manager is put together.
mod Defs
mod Port
pub use Defs.{Runtime, ManagerServer}
unfoldable pub use Defs.{new_manager_server, start_server}
pub use Port.{Builds, new_manager_server-Builds}
