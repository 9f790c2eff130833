-- ===== src/Config/Manager.antt =====
-- pkg/config/manager.go: the options of the manager. A duration is an integer of nanoseconds.
use frp_provisioner.Prelude.{String, ◌<>◌, Bool, List, [], ◌∷◌, Option, none, some, ◌==◌, is_empty}
use frp_provisioner.Prelude.Int.{ℤ, pos, is_zero}
use frp_provisioner.Go.{GoError, text, join, Result, ok, err, panic, note_if}
use frp_provisioner.Kube.{Pod, Machinery}

pub record ManagerOptions : Type 0 where
  pub leader_election : Bool
  pub leader_election_resource_lock : String
  pub leader_election_namespace : String
  pub leader_election_id : String
  pub leader_election_release_on_cancel : Bool
  pub lease_duration : ℤ
  pub renew_deadline : ℤ
  pub retry_period : ℤ
  pub metrics_secure_serving : Bool
  pub metrics_bind_address : String
  pub metrics_cert_dir : String
  pub metrics_cert_name : String
  pub metrics_key_name : String
  pub webhook_bind_address : String
  pub webhook_cert_dir : String
  pub webhook_cert_name : String
  pub webhook_key_name : String
  pub webhook_client_ca_name : String
  pub health_probe_bind_address : String
  pub pprof_bind_address : String
  pub graceful_shutdown_timeout : ℤ
  pub pod_template : String

abbrev pub default_leader_election_resource_lock : String
default_leader_election_resource_lock = "leases"

abbrev pub default_leader_election_id : String
default_leader_election_id = "frp-provisioner"

abbrev pub default_lease_duration : ℤ
default_lease_duration = pos 15000000000

abbrev pub default_renew_deadline : ℤ
default_renew_deadline = pos 10000000000

abbrev pub default_retry_period : ℤ
default_retry_period = pos 2000000000

abbrev pub default_graceful_shutdown_period : ℤ
default_graceful_shutdown_period = pos 30000000000

abbrev pub default_webhook_bind_address : String
default_webhook_bind_address = ":9443"

abbrev pub default_webhook_cert_name : String
default_webhook_cert_name = "tls.crt"

abbrev pub default_webhook_key_name : String
default_webhook_key_name = "tls.key"

abbrev pub default_pod_template : String
default_pod_template =
    "\nmetadata:\n labels:\n   app: frp-client\n name: frp-client\nspec:\n containers:\n - image: busybox:latest\n   imagePullPolicy: Always\n   name: frp-client\n   resources:\n     limits:\n       cpu: 500m\n       memory: 1Gi\n     requests:\n       cpu: 100m\n       memory: 128Mi\n   command:\n   - tail\n   - \"-f\"\n"

module _ (L : Machinery) where
  -- The first argument is filepath.Join behind os.TempDir().
  unfoldable pub set_manager_defaults : (List String → String) → ManagerOptions → ManagerOptions
  set_manager_defaults temp_path o = record o {
    leader_election_id = L.empty_or_text o.leader_election_id default_leader_election_id;
    leader_election_resource_lock =
        L.empty_or_text o.leader_election_resource_lock default_leader_election_resource_lock;
    lease_duration = L.empty_or_int o.lease_duration default_lease_duration;
    renew_deadline = L.empty_or_int o.renew_deadline default_renew_deadline;
    retry_period = L.empty_or_int o.retry_period default_retry_period;
    metrics_bind_address = L.empty_or_text o.metrics_bind_address ":8080";
    graceful_shutdown_timeout =
        L.empty_or_int o.graceful_shutdown_timeout default_graceful_shutdown_period;
    webhook_bind_address = L.empty_or_text o.webhook_bind_address default_webhook_bind_address;
    webhook_cert_dir =
        L.empty_or_text o.webhook_cert_dir
          (temp_path ("k8s-webhook-server" ∷ "serving-certs" ∷ []));
    webhook_cert_name = L.empty_or_text o.webhook_cert_name default_webhook_cert_name;
    webhook_key_name = L.empty_or_text o.webhook_key_name default_webhook_key_name;
    pod_template = L.empty_or_text o.pod_template default_pod_template;
    metrics_cert_dir =
        L.empty_or_text o.metrics_cert_dir
          (temp_path ("k8s-metrics-server" ∷ "serving-certs" ∷ []));
  }

  -- The checks of the first part of Validate.
  unfoldable pub required_errors : ManagerOptions → Option GoError
  unfolding note_if
  required_errors o =
      let err = note_if (o.leader_election_id == "") "leaderElectionID is required" none in
      let err = note_if (is_zero o.lease_duration) "leaseDuration is required" err in
      let err =
        note_if (o.leader_election_resource_lock == "") "leaderElectionResourceLock is required"
          err in
      let err = note_if (is_zero o.renew_deadline) "renewDeadline is required" err in
      let err = note_if (is_zero o.retry_period) "retryPeriod is required" err in
      let err = note_if (o.metrics_bind_address == "") "metricsBindAddress is required" err in
      let err =
        note_if (is_zero o.graceful_shutdown_timeout) "gracefulShutdownTimeout is required" err in
      note_if (o.pod_template == "") "PodTemplate is required" err

  -- `err = yaml.Unmarshal(…)` and what follows: the error so far is overwritten.
  unfoldable pub overwrite : String → Option GoError → Result Pod → Result (Option GoError)
  unfolding note_if
  overwrite template before (panic message) = panic message
  overwrite template before (err e) =
      ok (join (some e) (some (text ("unable parse podTemplate with yaml: " <> template))))
  overwrite template before (ok pod) =
      ok (note_if (is_empty pod.containers) "podTemplate does not specify any container" none)

  unfoldable pub validate_manager : ManagerOptions → Result (Option GoError)
  unfolding required_errors overwrite
  validate_manager o = overwrite o.pod_template (required_errors o) (L.unmarshal_pod o.pod_template)
