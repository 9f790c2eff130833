-- ===== src/Tests/Managers.antt =====
-- The construction of the manager with a webhook address that names another port.
use frp_provisioner.Prelude.{String, ◌==◌, ◌≡◌, ◌≢◌, refl, if◌then◌else◌}
use frp_provisioner.Prelude.Int.{pos}
use frp_provisioner.Go.{ok, err, text}
use frp_provisioner.Config.{new_configuration}
use frp_provisioner.Startup.{
  Runtime, ManagerServer, Builds, new_manager_server, new_manager_server-Builds,
}

-- Everything succeeds, and every address is split like ":8443".
abbrev pub runtime : Runtime (Unit {0})
runtime = record {
  split_host_port = λ address. ok ("", "8443");
  atoi = λ t. if t == "" then err (text "invalid syntax") else ok (pos 8443);
  default_port = pos 9443;
  KubeConfig = Unit {0};
  Manager = Unit {0};
  get_config = λ s. (ok tt, s);
  new_manager = λ kube options s. (ok tt, s);
  index_pods = λ m name f s. (ok tt, s);
  index_frp_servers = λ m name f s. (ok tt, s);
  setup_service_reconciler = λ m o s. (ok tt, s);
  setup_frp_server_reconciler = λ m s. (ok tt, s);
  setup_frp_server_validator = λ m s. (ok tt, s);
  add_healthz_check = λ m s. (ok tt, s);
  add_readyz_check = λ m s. (ok tt, s);
  start = λ m s. (ok tt, s);
}

abbrev made : ManagerServer runtime
made = record { mgr = tt; cfg = new_configuration }

makes : new_manager_server runtime new_configuration tt ≡ (ok made, tt)
unfolding new_manager_server
makes = refl

new_manager_server-Builds_example :
    (host : String) × (port : String) × (runtime.split_host_port
        new_configuration.manager.webhook_bind_address
      ≡ ok (host, port))
    × (port ≢ "")
    × Builds runtime new_configuration host (pos 9443) made tt tt
new_manager_server-Builds_example =
    new_manager_server-Builds runtime (text "invalid syntax") refl new_configuration tt tt made
      makes
