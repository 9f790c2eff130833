-- ===== src/Tests/Commands.antt =====
-- The commands with a small flag library, and a system whose calls succeed.
use frp_provisioner.Prelude.{String, true, is_some, List, [], ◌∷◌, none, some, ◌≡◌, refl}
use frp_provisioner.Go.{ok}
use frp_provisioner.Kube.Samples.{libraries}
use frp_provisioner.Flags.{set_all, view, outcome, assign_all, declared}
use frp_provisioner.Config.{
  Configuration, set_defaults, set_agent_defaults, validate, validate_agent,
}
use frp_provisioner.Logger.{Zap, new_logger}
use frp_provisioner.Startup.{new_manager_server, start_server}
use frp_provisioner.Commands.{
  Files, Pointers, load_config_file, load_agent_config_file, validate_manager_flags,
  validate_agent_flags, agent_flag_precedence, Shell, before, command_flags, precedence_flags,
  flag_precedence, Parts, run_e, AgentParts, agent_command_flags, agent_run_e, at_flags,
  set_all-refines, bound, rests, Commands, run_e-Commands, agent_bound, agent_rests, AgentCommands,
  agent_run_e-AgentCommands,
}
use frp_provisioner.Tests.Lines.{readers, flag_library, split_line}
use frp_provisioner.Tests.Managers.{runtime}
use frp_provisioner.Tests.Options.{temp_path, started}

-- The values of one configuration with another one.
abbrev verbose : Configuration
verbose = record started { log = record started.log { encoding = "json" } }

abbrev args : List String
args = "--log.encoding" ∷ "json" ∷ []

set_all-refines_example :
    (outcome (view (precedence_flags readers started)) (
        set_all readers
          (precedence_flags readers started)
          []
          (("log.encoding", "json") ∷ [])
          (at_flags started))
      ≡ assign_all readers
          (declared (precedence_flags readers started))
          []
          (("log.encoding", "json") ∷ [])
          (view (precedence_flags readers started) (at_flags started)))
    × (is_some
          (set_all readers
            (precedence_flags readers started)
            []
            (("log.encoding", "json") ∷ [])
            (at_flags started)).1.cfg.log.sampling
        ≡ true)
unfolding set_defaults
set_all-refines_example =
    set_all-refines readers started (("log.encoding", "json") ∷ []) (at_flags started) refl

loaded : Pointers
loaded = record { log = some started.log; manager = some started.manager }

-- A file that leaves the configuration as it is.
abbrev files : Files (Unit {0})
files = record {
  stat = λ name s. (ok tt, s);
  read_file = λ name s. (ok "", s);
  unmarshal_strict = λ text c. ok (record { log = some c.log; manager = some c.manager });
  unmarshal_agent_strict = λ text c. ok (record { log = some c.log });
}

abbrev pub zap : Zap (Unit {0})
zap = record {
  Logger = Unit {0};
  build = λ c options s. (ok tt, s);
  global = λ s. tt;
  replace_globals = λ l s. s;
  context_error = λ s. none;
}

abbrev shell : Shell (Unit {0}) (Unit {0})
shell = record {
  help = λ s. (ok tt, s);
  print_version = λ s. s;
  set_logger = λ l s. s;
  fatal = λ l message s. s;
}

abbrev parts : Parts (Unit {0})
parts = record {
  flag_library = flag_library;
  machinery = libraries;
  temp_path = temp_path;
  files = files;
  zap = zap;
  shell = shell;
  runtime = λ ctx. runtime;
}

abbrev agent_parts : AgentParts (Unit {0})
agent_parts = record {
  flag_library = flag_library;
  machinery = libraries;
  files = files;
  zap = zap;
  shell = shell;
}

runs : run_e parts args tt ≡ (ok tt, tt)
unfolding run_e set_all split_line command_flags set_defaults before validate_manager_flags
    load_config_file flag_precedence validate new_logger new_manager_server start_server
runs = refl

run_e-Commands_example : (rests parts args ≡ ok []) × Commands parts args (bound parts args) tt tt
run_e-Commands_example = run_e-Commands parts args tt tt runs

agent_runs : agent_run_e agent_parts args tt ≡ (ok tt, tt)
unfolding agent_run_e set_all split_line agent_command_flags set_agent_defaults validate_agent_flags
    load_agent_config_file agent_flag_precedence validate_agent new_logger
agent_runs = refl

agent_run_e-AgentCommands_example :
    (agent_rests agent_parts args ≡ ok [])
    × AgentCommands agent_parts args (agent_bound agent_parts args) tt tt
agent_run_e-AgentCommands_example = agent_run_e-AgentCommands agent_parts args tt tt agent_runs
