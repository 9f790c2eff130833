-- ===== src/Startup/Defs.antt =====
-- pkg/server/server.go and pkg/utils/fieldindex/register.go: NewManagerServer builds the options of the
-- controller manager, and registers the indexes, controllers, webhooks and checks. Log lines are left
-- out.
use frp_provisioner.Prelude.{String, ◌<>◌, Bool, List, [], ◌∷◌, map, ◌==◌, if◌then◌else◌}
use frp_provisioner.Prelude.Int.{ℤ}
use frp_provisioner.Go.{
  GoError, error_text, wrap, errorf_w, Result, M, pure, fail, lift, handle, ◌>>=◌, ◌>>◌,
}
use frp_provisioner.Kube.{OwnerReference}
use frp_provisioner.Api.{FrpServer}
use frp_provisioner.Config.{Configuration, ManagerOptions}

abbrev index_name_for_owner_ref_uid : String
index_name_for_owner_ref_uid = "ownerRefUID"

abbrev index_name_for_frp_server_phase : String
index_name_for_frp_server_phase = "status.phase"

-- By the owner references of the object.
abbrev pub owner_index_func : List OwnerReference → List String
owner_index_func refs = map (λ ref. ref.uid) refs

abbrev pub phase_index_func : FrpServer → List String
phase_index_func srv = if srv.status.phase == "" then [] else srv.status.phase ∷ []

-- webhook.Options, metricsserver.Options and ctrl.Options, without the scheme, which is the package's.
pub record WebhookOptions : Type 0 where
  pub host : String
  pub port : ℤ
  pub cert_dir : String
  pub cert_name : String
  pub key_name : String
  pub client_ca_name : String

pub record MetricsOptions : Type 0 where
  pub cert_dir : String
  pub cert_name : String
  pub key_name : String
  pub secure_serving : Bool
  pub bind_address : String

pub record Options : Type 0 where
  pub leader_election : Bool
  pub leader_election_resource_lock : String
  pub leader_election_namespace : String
  pub leader_election_id : String
  pub leader_election_release_on_cancel : Bool
  pub lease_duration : ℤ
  pub renew_deadline : ℤ
  pub retry_period : ℤ
  pub metrics : MetricsOptions
  pub webhook_server : WebhookOptions
  pub health_probe_bind_address : String
  pub pprof_bind_address : String
  pub graceful_shutdown_timeout : ℤ

-- net, strconv and controller-runtime.
pub record Runtime (S : Type 0) : Type 1 where
  pub split_host_port : String → Result (String × String)
  pub atoi : String → Result ℤ
  pub default_port : ℤ
  pub KubeConfig : Type 0
  pub Manager : Type 0
  pub get_config : M S KubeConfig
  pub new_manager : KubeConfig → Options → M S Manager
  -- IndexField of the manager's cache, by the kind of the object
  pub index_pods : Manager → String → (List OwnerReference → List String) → M S (Unit {0})
  pub index_frp_servers : Manager → String → (FrpServer → List String) → M S (Unit {0})
  pub setup_service_reconciler : Manager → ManagerOptions → M S (Unit {0})
  pub setup_frp_server_reconciler : Manager → M S (Unit {0})
  pub setup_frp_server_validator : Manager → M S (Unit {0})
  pub add_healthz_check : Manager → M S (Unit {0})
  pub add_readyz_check : Manager → M S (Unit {0})
  pub start : Manager → M S (Unit {0})

abbrev pub manager_options : String → ℤ → ManagerOptions → Options
manager_options host port o = record {
  leader_election = o.leader_election;
  leader_election_resource_lock = o.leader_election_resource_lock;
  leader_election_namespace = o.leader_election_namespace;
  leader_election_id = o.leader_election_id;
  leader_election_release_on_cancel = o.leader_election_release_on_cancel;
  lease_duration = o.lease_duration;
  renew_deadline = o.renew_deadline;
  retry_period = o.retry_period;
  metrics = record {
    cert_dir = o.metrics_cert_dir;
    cert_name = o.metrics_cert_name;
    key_name = o.metrics_key_name;
    secure_serving = o.metrics_secure_serving;
    bind_address = o.metrics_bind_address;
  };
  webhook_server = record {
    host = host;
    port = port;
    cert_dir = o.webhook_cert_dir;
    cert_name = o.webhook_cert_name;
    key_name = o.webhook_key_name;
    client_ca_name = o.webhook_client_ca_name;
  };
  health_probe_bind_address = o.health_probe_bind_address;
  pprof_bind_address = o.pprof_bind_address;
  graceful_shutdown_timeout = o.graceful_shutdown_timeout;
}

module _ {S : Type 0} (R : Runtime S) where
  pub record ManagerServer : Type 0 where
    pub mgr : R.Manager
    pub cfg : Configuration

  -- `fmt.Errorf("…, got: '%w'", err)`
  abbrev pub quoted : {A : Type 0} → String → GoError → M S A
  quoted message e = fail (wrap (message <> "'" <> error_text e <> "'") e)

  abbrev pub plain : {A : Type 0} → String → GoError → M S A
  plain message e = fail (errorf_w message e)

  unfoldable pub register_field_indexes : R.Manager → M S (Unit {0})
  register_field_indexes mgr =
      R.index_pods mgr index_name_for_owner_ref_uid owner_index_func
      >> R.index_frp_servers mgr index_name_for_frp_server_phase phase_index_func

  -- The port is converted when it is empty.
  unfoldable pub webhook_port : String → M S ℤ
  webhook_port port =
      if port == ""
      then handle (lift (R.atoi port)) (quoted "unable to convert port to number, got: ") pure
      else pure R.default_port

  -- What is set up in the new manager, in order.
  unfoldable pub set_up_parts : Configuration → R.Manager → M S (Unit {0})
  unfolding register_field_indexes
  set_up_parts cfg mgr = do
    _ ←
        handle (register_field_indexes mgr) (quoted "unable  RegisterFieldIndexes to cache got: ")
          pure
    _ ←
        handle (R.setup_service_reconciler mgr cfg.manager)
          (plain "unable to setup server reconciler, got: ") pure
    _ ←
        handle (R.setup_frp_server_reconciler mgr)
          (plain "unable to setup frpserver reconciler, got: ") pure
    _ ←
        handle (R.setup_frp_server_validator mgr)
          (plain "unable to setup FrpServerValidator webhook, got: ") pure
    _ ← handle (R.add_healthz_check mgr) (plain "unable to set up health check, got: ") pure
    handle (R.add_readyz_check mgr) (plain "unable to set up ready check, got: ") pure

  unfoldable pub set_up : Configuration → R.Manager → M S ManagerServer
  unfolding set_up_parts
  set_up cfg mgr = set_up_parts cfg mgr >>= λ _. pure (record { mgr = mgr; cfg = cfg })

  unfoldable pub build : Configuration → String → ℤ → M S ManagerServer
  unfolding set_up
  build cfg host port =
      handle R.get_config (quoted "unable to get kubernetes config, got: ") λ kube.
        handle (R.new_manager kube (manager_options host port cfg.manager))
          (quoted "unable to start manager, got: ") (set_up cfg)

  unfoldable pub with_address : Configuration → String × String → M S ManagerServer
  unfolding webhook_port build
  with_address cfg (host, port) = webhook_port port >>= build cfg host

  unfoldable pub new_manager_server : Configuration → M S ManagerServer
  unfolding with_address
  new_manager_server cfg =
      handle (lift (R.split_host_port cfg.manager.webhook_bind_address))
        (quoted "unable to split host and port, got: ") (with_address cfg)

  unfoldable pub start_server : ManagerServer → M S (Unit {0})
  start_server s =
      handle (R.start s.mgr) (plain "unable running frp-provisioner controller, got: ") pure
