-- ===== src/Commands/Manager.antt =====
-- cmd/manager: the command of the manager, from its arguments to the start of the server. cobra and the
-- signal handler are parameters; `--help` is a flag of the set of the command only.
use frp_provisioner.Prelude.{String, Bool, false, List, ◌∷◌, ◌++◌, Option, none, some}
use frp_provisioner.Go.{Result, ok, err, panic, M}
use frp_provisioner.Kube.{Machinery}
use frp_provisioner.Flags.{Flag, bool_var, FlagLibrary, Readers, within}
use frp_provisioner.Config.{
  LogOptions, ManagerOptions, Configuration, new_configuration, set_defaults, add_log_flags,
  add_manager_flags,
}
use frp_provisioner.Commands.Flags.{
  Pointers, ManagerFlags, new_manager_flags, set_manager_flags_defaults, add_command_flags,
}

-- What the flags of a flag set are bound to.
pub record Bound : Type 0 where
  pub help : Bool
  pub flags : ManagerFlags
  pub cfg : Configuration

-- cobra, the version package and controller-runtime's log.
pub record Shell (S : Type 0) (Logger : Type 0) : Type 0 where
  pub help : M S (Unit {0})
  pub print_version : S → S
  pub set_logger : Logger → S → S
  -- Fatal of a logger, which ends the process
  pub fatal : Logger → String → S → S

abbrev pub nil_dereference : String
nil_dereference = "invalid memory address or nil pointer dereference"

unfoldable pub parsed : {A : Type 0} → Result A × Bound → Result Configuration
parsed (ok _, b) = ok b.cfg
parsed (err e, b) = err e
parsed (panic m, b) = panic m

module _ (P : Readers) where
  -- Configuration.AddFlags, to the fields of the configuration in a flag set.
  unfoldable pub add_flags : Configuration → List (Flag Bound)
  unfolding add_log_flags add_manager_flags
  add_flags c =
      within {S = LogOptions} (λ b. b.cfg.log)
        (λ o b. record b { cfg = record { log = o; manager = b.cfg.manager } })
        (add_log_flags P c.log)
      ++ within {S = ManagerOptions} (λ b. b.cfg.manager)
          (λ o b. record b { cfg = record { log = b.cfg.log; manager = o } }) add_manager_flags

  -- The flags that FlagPrecedence registers.
  unfoldable pub precedence_flags : Configuration → List (Flag Bound)
  unfolding add_flags
  precedence_flags c =
      within {S = ManagerFlags} (λ b. b.flags) (λ f b. record b { flags = f }) add_command_flags
      ++ add_flags c

  unfoldable pub help_flag : Flag Bound
  help_flag = record {
    name = "help";
    shorthand = "h";
    setting = bool_var (λ b. b.help) (λ v b. record b { help = v });
  }

  -- The flags of the command.
  unfoldable pub command_flags : Configuration → List (Flag Bound)
  unfolding precedence_flags help_flag
  command_flags c = help_flag ∷ precedence_flags c
  -- The methods of a nil pointer read its fields.

module _ (P : FlagLibrary) where
  unfoldable pub precedence_at :
      List String → Option LogOptions → Option ManagerOptions → Result Configuration
  unfolding parsed
  precedence_at args none m = panic nil_dereference
  precedence_at args (some l) none = panic nil_dereference
  precedence_at args (some l) (some m) =
      let c : Configuration = record { log = l; manager = m } in
      let b : Bound = record { help = false; flags = new_manager_flags; cfg = c } in
      parsed (P.parse Bound (precedence_flags P.readers c) args b)

  unfoldable pub flag_precedence : List String → Pointers → Result Configuration
  unfolding precedence_at
  flag_precedence args c = precedence_at args c.log c.manager

module _ (L : Machinery) (temp_path : List String → String) where
  -- The flags and the configuration before the arguments are parsed.
  unfoldable pub before : Bound
  before = record {
    help = false;
    flags = set_manager_flags_defaults L new_manager_flags;
    cfg = set_defaults L temp_path new_configuration;
  }
