-- ===== src/Config.antt =====
-- pkg/config and pkg/log/options.go: the configuration of the manager, its defaults and its checks.
mod Logging
mod Manager
mod LogFlags
mod ManagerFlags
mod Whole
mod Checks
unfoldable pub use Logging.{validate_log}
pub use Logging.{LogOptions, SamplingConfig, EncoderConfig}
unfoldable pub use LogFlags.{add_log_flags, sampling_flags, set_level}
pub use LogFlags.{level_string, on_sampling, read_sampling}
unfoldable pub use ManagerFlags.{add_manager_flags}
pub use Manager.{ManagerOptions}
unfoldable pub use Manager.{required_errors}
pub use Whole.{Configuration, AgentConfiguration, new_configuration, new_agent_configuration}
unfoldable pub use Whole.{set_agent_defaults, validate_agent, set_defaults, validate}
pub use Checks.{IsLogged, IsTemplate, set_defaults-Complete, validate-eq-ok, validate_agent-none}
