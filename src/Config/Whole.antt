-- ===== src/Config/Whole.antt =====
-- pkg/config/config.go and agent.go: the configurations of the manager and of the agent as a whole. The
-- pointers in them are those of NewConfiguration and NewAgentConfiguration, which are not nil.
use frp_provisioner.Prelude.{String, ◌<>◌, false, List, Option, none, some}
use frp_provisioner.Prelude.Int.{pos}
use frp_provisioner.Go.{GoError, error_text, wrap, join, Result, ok, err, panic}
use frp_provisioner.Kube.{Machinery}
use frp_provisioner.Config.Logging.{LogOptions, set_log_defaults, validate_log, new_options}
use frp_provisioner.Config.Manager.{ManagerOptions, set_manager_defaults, validate_manager}

pub record Configuration : Type 0 where
  pub log : LogOptions
  pub manager : ManagerOptions

-- `if err := …; err != nil { errs = errors.Join(errs, fmt.Errorf(…)) }`
unfoldable pub join_named : String → Option GoError → Option GoError → Option GoError
join_named part errs none = errs
join_named part errs (some e) =
    join errs (some (wrap ("invalid " <> part <> " config, got: '" <> error_text e <> "'") e))

module _ (L : Machinery) where
  unfoldable pub set_defaults : (List String → String) → Configuration → Configuration
  unfolding set_log_defaults set_manager_defaults
  set_defaults temp_path c = record {
    log = set_log_defaults c.log;
    manager = set_manager_defaults L temp_path c.manager;
  }

  unfoldable pub join_manager : Option GoError → Result (Option GoError) → Result (Option GoError)
  unfolding join_named
  join_manager errs (ok e) = ok (join_named "manager" errs e)
  join_manager errs (err e) = err e
  join_manager errs (panic message) = panic message

  unfoldable pub validate : Configuration → Result (Option GoError)
  unfolding join_manager join_named validate_log validate_manager
  validate c =
      join_manager (join_named "log" none (validate_log c.log)) (validate_manager L c.manager)

-- NewConfiguration, with the zero ManagerOptions.
abbrev pub new_configuration : Configuration
new_configuration = record {
  log = new_options;
  manager = record {
    leader_election = false;
    leader_election_resource_lock = "";
    leader_election_namespace = "";
    leader_election_id = "";
    leader_election_release_on_cancel = false;
    lease_duration = pos 0;
    renew_deadline = pos 0;
    retry_period = pos 0;
    metrics_secure_serving = false;
    metrics_bind_address = "";
    metrics_cert_dir = "";
    metrics_cert_name = "";
    metrics_key_name = "";
    webhook_bind_address = "";
    webhook_cert_dir = "";
    webhook_cert_name = "";
    webhook_key_name = "";
    webhook_client_ca_name = "";
    health_probe_bind_address = "";
    pprof_bind_address = "";
    graceful_shutdown_timeout = pos 0;
    pod_template = "";
  };
}

pub record AgentConfiguration : Type 0 where
  pub log : LogOptions

unfoldable pub set_agent_defaults : AgentConfiguration → AgentConfiguration
unfolding set_log_defaults
set_agent_defaults c = record { log = set_log_defaults c.log }

unfoldable pub validate_agent : AgentConfiguration → Option GoError
unfolding join_named validate_log
validate_agent c = join_named "log" none (validate_log c.log)

abbrev pub new_agent_configuration : AgentConfiguration
new_agent_configuration = record { log = new_options }
