-- ===== src/Config/ManagerFlags.antt =====
-- pkg/config/manager.go: the flags of the manager's options. The template of the pods has none.
use frp_provisioner.Prelude.{List, [], ◌∷◌}
use frp_provisioner.Flags.{Flag, bool_var, duration_var, string_var}
use frp_provisioner.Config.Manager.{ManagerOptions}

unfoldable pub add_manager_flags : List (Flag ManagerOptions)
add_manager_flags =
    record {
      name = "manager.leader-election";
      shorthand = "";
      setting = bool_var (λ o. o.leader_election) (λ v o. record o { leader_election = v });
    }
    ∷ record {
      name = "manager.leader-election-resource-lock";
      shorthand = "";
      setting =
          string_var (λ o. o.leader_election_resource_lock)
            (λ v o. record o { leader_election_resource_lock = v });
    }
    ∷ record {
      name = "manager.leader-election-namespace";
      shorthand = "";
      setting =
          string_var (λ o. o.leader_election_namespace)
            (λ v o. record o { leader_election_namespace = v });
    }
    ∷ record {
      name = "manager.leader-election-id";
      shorthand = "";
      setting = string_var (λ o. o.leader_election_id) (λ v o. record o { leader_election_id = v });
    }
    ∷ record {
      name = "manager.leader-election-release-on-cancel";
      shorthand = "";
      setting =
          bool_var (λ o. o.leader_election_release_on_cancel)
            (λ v o. record o { leader_election_release_on_cancel = v });
    }
    ∷ record {
      name = "manager.leader-election-lease-duration";
      shorthand = "";
      setting = duration_var (λ o. o.lease_duration) (λ v o. record o { lease_duration = v });
    }
    ∷ record {
      name = "manager.leader-election-renew-deadline";
      shorthand = "";
      setting = duration_var (λ o. o.renew_deadline) (λ v o. record o { renew_deadline = v });
    }
    ∷ record {
      name = "manager.leader-election-retry-period";
      shorthand = "";
      setting = duration_var (λ o. o.retry_period) (λ v o. record o { retry_period = v });
    }
    ∷ record {
      name = "manager.health-probe-bind-address";
      shorthand = "";
      setting =
          string_var (λ o. o.health_probe_bind_address)
            (λ v o. record o { health_probe_bind_address = v });
    }
    ∷ record {
      name = "manager.MetricsSecureServing";
      shorthand = "";
      setting =
          bool_var (λ o. o.metrics_secure_serving) (λ v o. record o { metrics_secure_serving = v });
    }
    ∷ record {
      name = "manager.metrics-bind-address";
      shorthand = "";
      setting =
          string_var (λ o. o.metrics_bind_address) (λ v o. record o { metrics_bind_address = v });
    }
    ∷ record {
      name = "manager.pprof-bind-address";
      shorthand = "";
      setting = string_var (λ o. o.pprof_bind_address) (λ v o. record o { pprof_bind_address = v });
    }
    ∷ record {
      name = "manager.webhook-client-ca-name";
      shorthand = "";
      setting =
          string_var (λ o. o.webhook_client_ca_name)
            (λ v o. record o { webhook_client_ca_name = v });
    }
    ∷ record {
      name = "manager.webhook-key-name";
      shorthand = "";
      setting = string_var (λ o. o.webhook_key_name) (λ v o. record o { webhook_key_name = v });
    }
    ∷ record {
      name = "manager.webhook-cert-name";
      shorthand = "";
      setting = string_var (λ o. o.webhook_cert_name) (λ v o. record o { webhook_cert_name = v });
    }
    ∷ record {
      name = "manager.webhook-cert-dir";
      shorthand = "";
      setting = string_var (λ o. o.webhook_cert_dir) (λ v o. record o { webhook_cert_dir = v });
    }
    ∷ record {
      name = "manager.webhook-bind-address";
      shorthand = "";
      setting =
          string_var (λ o. o.webhook_bind_address) (λ v o. record o { webhook_bind_address = v });
    }
    ∷ record {
      name = "manager.metrics-key-name";
      shorthand = "";
      setting = string_var (λ o. o.metrics_key_name) (λ v o. record o { metrics_key_name = v });
    }
    ∷ record {
      name = "manager.metrics-cert-dir";
      shorthand = "";
      setting = string_var (λ o. o.metrics_cert_dir) (λ v o. record o { metrics_cert_dir = v });
    }
    ∷ record {
      name = "manager.metrics-cert-name";
      shorthand = "";
      setting = string_var (λ o. o.metrics_cert_name) (λ v o. record o { metrics_cert_name = v });
    }
    ∷ record {
      name = "manager.graceful-shutdown-timeout";
      shorthand = "";
      setting =
          duration_var (λ o. o.graceful_shutdown_timeout)
            (λ v o. record o { graceful_shutdown_timeout = v });
    }
    ∷ []
