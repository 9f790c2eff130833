-- ===== src/Tests/Cluster.antt =====
-- A small API server, and the objects that the tests use.
use frp_provisioner.Prelude.{arith, true, String, ◌<>◌, List, [], ◌∷◌, none, some}
use frp_provisioner.Prelude.Int.{pos}
use frp_provisioner.Go.{StringMap, ok}
use frp_provisioner.Kube.{OwnerReference, Pod, Service, service_type_load_balancer, Client, World}
use frp_provisioner.Kube.Samples.{blank_meta}
use frp_provisioner.Api.{
  FrpServer, FrpServerSpec, protocol_tcp, auth_method_token, phase_pending, label_service_name_key,
  label_controller_uid_key, annotation_frp_server_name_key, default_cert_file_name,
  default_key_file_name,
}
use frp_provisioner.RefManager.{RefManager}
use frp_provisioner.Service.{ServiceReconciler, KeepsIdentity}
use frp_provisioner.Kube.Samples.{libraries}

pub record State : Type 0 where
  pub service : Service
  pub pods : List Pod
  pub server : FrpServer

-- Every request is granted.
abbrev pub cluster : Client
cluster = record {
  State = State;
  get_service = λ key s. (ok s.service, s);
  get_object = λ kind key s. (ok s.service.metadata, s);
  list_pods = λ namespace set s. (ok s.pods, s);
  create_pod = λ p s. (ok p, record s { pods = p ∷ s.pods });
  update_pod = λ p s. (ok p, s);
  delete_pod = λ p s. (ok tt, s);
  update_service = λ v s. (ok v, record s { service = v });
  get_frp_server = λ key s. (ok s.server, s);
  list_frp_servers = λ s. (ok (s.server ∷ []), s);
  update_status = λ f s. (ok f, record s { server = f });
  get_secret =
      λ key s. (ok ((default_cert_file_name, "cert") ∷ (default_key_file_name, "key") ∷ []), s);
  generate_name = λ base s. (ok (base <> "x7k2p"), s);
}

abbrev pub web : Service
web = record {
  metadata = record blank_meta {
    name = "web";
    namespace = "shop";
    uid = "u-1";
    annotations = (annotation_frp_server_name_key, "frps") ∷ [];
  };
  service_type = service_type_load_balancer;
}

abbrev pub web_deleted : Service
web_deleted = record web { metadata = record web.metadata { deletion_timestamp = some "12:00" } }

abbrev pub web_labels : StringMap
web_labels = (label_service_name_key, "web") ∷ (label_controller_uid_key, "u-1") ∷ []

abbrev pub reference_to_web : OwnerReference
reference_to_web = record { kind = "Service"; name = "web"; uid = "u-1"; controller = some true }

abbrev pub pod_with : String → StringMap → List OwnerReference → Pod
pod_with name labels refs = record {
  metadata = record blank_meta {
    name = name;
    namespace = "shop";
    labels = some labels;
    owner_references = refs;
  };
  containers = [];
  phase = "Running";
}

abbrev pub ours : Pod
ours = pod_with "ours" web_labels (reference_to_web ∷ [])

abbrev pub stray : Pod
stray = pod_with "stray" [] (reference_to_web ∷ [])

abbrev pub orphan : Pod
orphan = pod_with "orphan" web_labels []

abbrev pub adopted : Pod
adopted = pod_with "orphan" web_labels (reference_to_web ∷ [])

abbrev pub gone : Pod
gone = record (pod_with "gone" web_labels []) { phase = "Failed" }

abbrev pub spec : FrpServerSpec
spec = record {
  auth = record {
    method = auth_method_token;
    additional_scopes = [];
    token = "secret";
    oidc = none;
  };
  user = "";
  server_addr = "frps.example.org";
  server_port = pos 7000;
  external_ips = "192.0.2.1" ∷ [];
  nat_hole_stun_server = "";
  dns_server = "";
  login_fail_exit = none;
  transport = record {
    protocol = protocol_tcp;
    dial_server_timeout = pos 0;
    dial_server_keep_alive = pos 0;
    connect_server_local_ip = "";
    proxy_url = "";
    pool_count = pos 0;
    tcp_mux = none;
    tcp_mux_keepalive_interval = pos 0;
    quic = none;
    heartbeat_interval = pos 0;
    heartbeat_timeout = pos 0;
    tls = record {
      secret_ref = some (record { name = "tls"; namespace = "shop" });
      server_name = "";
      disable_custom_tls_first_byte = none;
    };
  };
  udp_packet_size = pos 0;
  metadatas = [];
}

abbrev pub frps : FrpServer
frps = record {
  metadata = record blank_meta { name = "frps" };
  spec = spec;
  status = record { phase = phase_pending; conditions = []; reason = ""; service_references = [] };
}

abbrev pub start : World cluster
start = record {
  store = record { service = web; pods = []; server = frps };
  calls = [];
  once = none;
  temp_files = [];
  connectors = 0;
  connections = 0;
}

abbrev pub manager_of : Service → RefManager libraries
manager_of s = record { selector = web_labels; owner = s; schema = some tt }

abbrev pub reconciler : ServiceReconciler libraries
reconciler = record { scheme = tt; pod_template = "frpc" }

pub cluster-KeepsIdentity : KeepsIdentity cluster
cluster-KeepsIdentity = record {
  same_name = λ s a t u h. ground arith;
  same_namespace = λ s a t u h. ground arith;
  same_uid = λ s a t u h. ground arith;
}
