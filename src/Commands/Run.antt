-- ===== src/Commands/Run.antt =====
-- cmd/manager/app/server.go and cmd/manager/main.go: RunE of the command of the manager, and main.
use frp_provisioner.Prelude.{String, ◌<>◌, List, [], ◌∷◌, Option, none, some, if◌then◌else◌}
use frp_provisioner.Go.{
  GoError, error_text, text, Result, ok, err, M, fail, pure, lift, handle, ◌>>=◌, ◌>>◌,
}
use frp_provisioner.Kube.{Machinery}
use frp_provisioner.Flags.{FlagLibrary}
use frp_provisioner.Config.{Configuration, validate}
use frp_provisioner.Logger.{Zap, Context, background, new_context, without_context, new_logger}
use frp_provisioner.Startup.{Runtime, new_manager_server, start_server}
use frp_provisioner.Commands.Flags.{
  Files, validate_manager_flags, load_config_file, told, cannot_load,
}
use frp_provisioner.Commands.Manager.{Bound, Shell, command_flags, flag_precedence, before}

-- What a command works with: the libraries as parameters.
pub record Parts (S : Type 0) : Type 1 where
  pub flag_library : FlagLibrary
  pub machinery : Machinery
  pub temp_path : List String → String
  pub files : Files S
  pub zap : Zap S
  pub shell : Shell S zap.Logger
  -- controller-runtime, under a context
  pub runtime : Context zap.Logger → Runtime S

module _ {S : Type 0} (W : Parts S) where
  -- The global logger and the one of controller-runtime are replaced, and the server runs.
  unfoldable pub with_logger : Configuration → W.zap.Logger → M S (Unit {0})
  with_logger cfg logger s =
      let R = W.runtime (new_context W.zap (background W.zap.Logger) logger) in
      handle (new_manager_server R cfg) (told "cannot create frp-provisioner server: ")
        (start_server R) (W.shell.set_logger logger (W.zap.replace_globals logger s))

  unfoldable pub serve : Configuration → M S (Unit {0})
  unfolding with_logger
  serve cfg = handle (new_logger W.zap cfg.log) (told "cannot create logger: ") (with_logger cfg)

  unfoldable pub checked : Configuration → Option GoError → M S (Unit {0})
  unfolding serve
  checked cfg none = serve cfg
  checked cfg (some e) = told "config file is incorrect: " e

  unfoldable pub check : Configuration → M S (Unit {0})
  unfolding checked
  check cfg = lift (validate W.machinery cfg) >>= checked cfg

  unfoldable pub configure : List String → Bound → M S (Unit {0})
  unfolding check cannot_load
  configure args b =
      validate_manager_flags W.files b.flags
      >> handle (load_config_file W.files b.flags.config_file b.cfg)
          (cannot_load b.flags.config_file)
          (λ loaded. lift (flag_precedence W.flag_library args loaded) >>= check)

  unfoldable pub show_or_configure : List String → Bound → M S (Unit {0})
  unfolding configure
  show_or_configure args b s =
      if b.help
      then W.shell.help s
      else if b.flags.show_version
      then (ok tt, W.shell.print_version s)
      else configure args b s

  unfoldable pub check_rest : List String → Bound → List String → M S (Unit {0})
  unfolding show_or_configure
  check_rest args b [] = show_or_configure args b
  check_rest args b (unknown ∷ _) = fail (text ("unknown command: " <> unknown))

  unfoldable pub after_parse : List String → Result (List String) × Bound → M S (Unit {0})
  unfolding check_rest
  after_parse args (r, b) = lift r >>= check_rest args b

  unfoldable pub run_e : List String → M S (Unit {0})
  unfolding after_parse
  run_e args =
      let b = before W.machinery W.temp_path in
      after_parse args
        (W.flag_library.parse Bound (command_flags W.flag_library.readers b.cfg) args b)

  -- The logger of the fatal error is the one that was global before the command ran.
  unfoldable pub main : List String → M S (Unit {0})
  unfolding run_e
  main args s =
      let l = without_context W.zap s in
      handle (run_e args) (λ e t. (err e, W.shell.fatal l (error_text e) t)) pure s
