-- ===== src/Commands/Agent.antt =====
-- cmd/agent and pkg/server/agent.go: the command of the agent, from its arguments to the start of its
-- server, which logs a line and returns.
use frp_provisioner.Prelude.{
  String, ◌<>◌, Bool, false, List, [], ◌∷◌, ◌++◌, Option, none, some, if◌then◌else◌,
}
use frp_provisioner.Go.{
  GoError, error_text, text, Result, ok, err, panic, M, fail, pure, lift, handle, ◌>>=◌, ◌>>◌,
}
use frp_provisioner.Kube.{Machinery}
use frp_provisioner.Flags.{Flag, bool_var, FlagLibrary, Readers, within}
use frp_provisioner.Config.{
  LogOptions, AgentConfiguration, new_agent_configuration, set_agent_defaults, validate_agent,
  add_log_flags,
}
use frp_provisioner.Logger.{Zap, Context, background, new_context, without_context, new_logger}
use frp_provisioner.Commands.Flags.{
  Files, AgentPointers, AgentFlags, new_agent_flags, set_agent_flags_defaults,
  add_agent_command_flags, validate_agent_flags, load_agent_config_file, told, cannot_load,
}
use frp_provisioner.Commands.Manager.{Shell, nil_dereference}

pub record AgentBound : Type 0 where
  pub help : Bool
  pub flags : AgentFlags
  pub cfg : AgentConfiguration

-- Log lines are left out.
pub record AgentServer : Type 0 where

abbrev pub new_agent_server :
    {S Logger : Type 0} → Context Logger → AgentConfiguration → M S AgentServer
new_agent_server ctx cfg = pure (record {})

abbrev pub start_agent_server : {S Logger : Type 0} → AgentServer → Context Logger → M S (Unit {0})
start_agent_server server ctx = pure tt

agent_parsed : {A : Type 0} → Result A × AgentBound → Result AgentConfiguration
agent_parsed (ok _, b) = ok b.cfg
agent_parsed (err e, b) = err e
agent_parsed (panic m, b) = panic m

module _ (P : Readers) where
  unfoldable pub agent_precedence_flags : AgentConfiguration → List (Flag AgentBound)
  unfolding add_log_flags
  agent_precedence_flags c =
      within {S = AgentFlags} (λ b. b.flags) (λ f b. record b { flags = f }) add_agent_command_flags
      ++ within {S = LogOptions} (λ b. b.cfg.log) (λ o b. record b { cfg = record { log = o } })
          (add_log_flags P c.log)

  unfoldable pub agent_command_flags : AgentConfiguration → List (Flag AgentBound)
  unfolding agent_precedence_flags
  agent_command_flags c =
      record {
        name = "help";
        shorthand = "h";
        setting = bool_var (λ b. b.help) (λ v b. record b { help = v });
      }
      ∷ agent_precedence_flags c

module _ (P : FlagLibrary) where
  agent_precedence_at : List String → Option LogOptions → Result AgentConfiguration
  unfolding agent_parsed
  agent_precedence_at args none = panic nil_dereference
  agent_precedence_at args (some l) =
      let c : AgentConfiguration = record { log = l } in
      let b : AgentBound = record { help = false; flags = new_agent_flags; cfg = c } in
      agent_parsed (P.parse AgentBound (agent_precedence_flags P.readers c) args b)

  unfoldable pub agent_flag_precedence : List String → AgentPointers → Result AgentConfiguration
  unfolding agent_precedence_at
  agent_flag_precedence args c = agent_precedence_at args c.log

pub record AgentParts (S : Type 0) : Type 1 where
  pub flag_library : FlagLibrary
  pub machinery : Machinery
  pub files : Files S
  pub zap : Zap S
  pub shell : Shell S zap.Logger

module _ {S : Type 0} (W : AgentParts S) where
  abbrev pub agent_before : AgentBound
  agent_before = record {
    help = false;
    flags = set_agent_flags_defaults W.machinery new_agent_flags;
    cfg = set_agent_defaults new_agent_configuration;
  }

  unfoldable pub with_agent_logger : AgentConfiguration → W.zap.Logger → M S (Unit {0})
  with_agent_logger cfg logger s =
      let ctx = new_context W.zap (background W.zap.Logger) logger in
      handle (new_agent_server ctx cfg) (told "cannot create frp-provisioner agent server: ")
        (λ server. start_agent_server server ctx) (W.zap.replace_globals logger s)

  unfoldable pub agent_serve : AgentConfiguration → M S (Unit {0})
  unfolding with_agent_logger
  agent_serve cfg =
      handle (new_logger W.zap cfg.log) (told "cannot create logger: ") (with_agent_logger cfg)

  unfoldable pub agent_check : AgentConfiguration → Option GoError → M S (Unit {0})
  unfolding agent_serve
  agent_check cfg none = agent_serve cfg
  agent_check cfg (some e) = told "config file is incorrect: " e

  unfoldable pub agent_configure : List String → AgentBound → M S (Unit {0})
  unfolding agent_check cannot_load
  agent_configure args b =
      validate_agent_flags W.files b.flags
      >> handle (load_agent_config_file W.files b.flags.config_file b.cfg)
          (cannot_load b.flags.config_file)
          (λ loaded. lift (agent_flag_precedence W.flag_library args loaded) >>= λ cfg.
            agent_check cfg (validate_agent cfg))

  unfoldable pub agent_show_or_configure : List String → AgentBound → M S (Unit {0})
  unfolding agent_configure
  agent_show_or_configure args b s =
      if b.help
      then W.shell.help s
      else if b.flags.show_version
      then (ok tt, W.shell.print_version s)
      else agent_configure args b s

  unfoldable pub agent_check_rest : List String → AgentBound → List String → M S (Unit {0})
  unfolding agent_show_or_configure
  agent_check_rest args b [] = agent_show_or_configure args b
  agent_check_rest args b (unknown ∷ _) = fail (text ("unknown command: " <> unknown))

  unfoldable pub agent_after_parse :
      List String → Result (List String) × AgentBound → M S (Unit {0})
  unfolding agent_check_rest
  agent_after_parse args (r, b) = lift r >>= agent_check_rest args b

  unfoldable pub agent_run_e : List String → M S (Unit {0})
  unfolding agent_after_parse
  agent_run_e args = agent_after_parse args (
      W.flag_library.parse AgentBound (agent_command_flags W.flag_library.readers agent_before.cfg)
        args agent_before)

  unfoldable pub agent_main : List String → M S (Unit {0})
  unfolding agent_run_e
  agent_main args s =
      let l = without_context W.zap s in
      handle (agent_run_e args) (λ e t. (err e, W.shell.fatal l (error_text e) t)) pure s
