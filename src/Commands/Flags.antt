-- ===== src/Commands/Flags.antt =====
-- cmd/manager/app/options and cmd/agent/app/options: the flags of the two commands beside the
-- configuration, and what the commands use of the system.
use frp_provisioner.Prelude.{String, ◌<>◌, Bool, false, List, [], ◌∷◌, ◌==◌, if◌then◌else◌, Option}
use frp_provisioner.Go.{GoError, error_text, errorf_v, text, Result, M, fail, lift, ◌>>=◌}
use frp_provisioner.Kube.{Machinery}
use frp_provisioner.Flags.{Flag, bool_var, string_var}
use frp_provisioner.Config.{LogOptions, ManagerOptions, Configuration, AgentConfiguration}

-- The configurations as LoadConfigFile leaves them: a file can set a pointer to nil.
pub record Pointers : Type 0 where
  pub log : Option LogOptions
  pub manager : Option ManagerOptions

pub record AgentPointers : Type 0 where
  pub log : Option LogOptions

-- os, and UnmarshalStrict into a configuration that has these values.
pub record Files (S : Type 0) : Type 0 where
  pub stat : String → M S (Unit {0})
  pub read_file : String → M S String
  pub unmarshal_strict : String → Configuration → Result Pointers
  pub unmarshal_agent_strict : String → AgentConfiguration → Result AgentPointers

pub record ManagerFlags : Type 0 where
  pub config_file : String
  pub show_version : Bool

pub record AgentFlags : Type 0 where
  pub config_file : String
  pub show_version : Bool

abbrev pub new_manager_flags : ManagerFlags
new_manager_flags = record { config_file = ""; show_version = false }

abbrev pub new_agent_flags : AgentFlags
new_agent_flags = record { config_file = ""; show_version = false }

abbrev default_config_file : String
default_config_file = "/etc/manager/config.yaml"

abbrev default_agent_config_file : String
default_agent_config_file = "/etc/frp-provisioner/agent-config.yaml"

module _ (L : Machinery) where
  abbrev pub set_manager_flags_defaults : ManagerFlags → ManagerFlags
  set_manager_flags_defaults f = record f {
    config_file = L.empty_or_text f.config_file default_config_file;
  }

  abbrev pub set_agent_flags_defaults : AgentFlags → AgentFlags
  set_agent_flags_defaults f = record f {
    config_file = L.empty_or_text f.config_file default_agent_config_file;
  }

abbrev pub add_command_flags : List (Flag ManagerFlags)
add_command_flags =
    record {
      name = "version";
      shorthand = "";
      setting = bool_var (λ f. f.show_version) (λ v f. record f { show_version = v });
    }
    ∷ record {
      name = "config";
      shorthand = "";
      setting = string_var (λ f. f.config_file) (λ v f. record f { config_file = v });
    }
    ∷ []

abbrev pub add_agent_command_flags : List (Flag AgentFlags)
add_agent_command_flags =
    record {
      name = "version";
      shorthand = "";
      setting = bool_var (λ f. f.show_version) (λ v f. record f { show_version = v });
    }
    ∷ record {
      name = "config";
      shorthand = "";
      setting = string_var (λ f. f.config_file) (λ v f. record f { config_file = v });
    }
    ∷ []

module _ {S : Type 0} (F : Files S) where
  unfoldable pub validate_manager_flags : ManagerFlags → M S (Unit {0})
  validate_manager_flags f =
      if f.config_file == "" then fail (text "config file required") else F.stat f.config_file

  unfoldable pub validate_agent_flags : AgentFlags → M S (Unit {0})
  validate_agent_flags f =
      if f.config_file == "" then fail (text "config file required") else F.stat f.config_file

  unfoldable pub load_config_file : String → Configuration → M S Pointers
  load_config_file filename c =
      F.read_file filename >>= λ content. lift (F.unmarshal_strict content c)

  unfoldable pub load_agent_config_file : String → AgentConfiguration → M S AgentPointers
  load_agent_config_file filename c =
      F.read_file filename >>= λ content. lift (F.unmarshal_agent_strict content c)

-- `return fmt.Errorf("…%v", err)`
abbrev pub told : {S A : Type 0} → String → GoError → M S A
told message e = fail (errorf_v message e)

unfoldable pub cannot_load : {S A : Type 0} → String → GoError → M S A
cannot_load filename e =
    fail (text ("config file " <> filename <> " contains errors: " <> error_text e))
