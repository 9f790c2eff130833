-- ===== src/Commands.antt =====
-- The commands of the two programs.
mod Flags
mod Manager
mod Run
mod Agent
mod Bindings
mod Precedence
mod Serving
mod AgentServing
pub use Flags.{Files, Pointers, AgentPointers}
unfoldable pub use Flags.{
  load_config_file, load_agent_config_file, validate_manager_flags, validate_agent_flags,
}
pub use Manager.{Bound, Shell, nil_dereference}
unfoldable pub use Manager.{before, command_flags, precedence_flags, flag_precedence}
pub use Run.{Parts}
unfoldable pub use Run.{run_e}
pub use Agent.{AgentBound, AgentParts, agent_before}
unfoldable pub use Agent.{agent_command_flags, agent_flag_precedence, agent_run_e}
pub use Precedence.{values, given, at_flags, set_all-refines}
pub use Serving.{bound, rests, Commands, run_e-Commands}
pub use AgentServing.{agent_bound, agent_rests, AgentCommands, agent_run_e-AgentCommands}
