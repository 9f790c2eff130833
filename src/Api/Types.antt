-- ===== src/Api/Types.antt =====
-- pkg/api/v1beta1/frpserver_types.go. A pointer is an option. The Go string types keep any string,
-- since an object may hold one that is none of the named constants.
use frp_provisioner.Prelude.{String, Bool, List, Option}
use frp_provisioner.Prelude.Int.{ℤ}
use frp_provisioner.Go.{StringMap}
use frp_provisioner.Kube.Objects.{ObjectMeta, SecretReference, Condition}

abbrev pub auth_method_token : String
auth_method_token = "token"

abbrev pub auth_method_oidc : String
auth_method_oidc = "oidc"

abbrev pub auth_scope_heart_beats : String
auth_scope_heart_beats = "HeartBeats"

abbrev pub auth_scope_new_work_conns : String
auth_scope_new_work_conns = "NewWorkConns"

abbrev pub protocol_tcp : String
protocol_tcp = "tcp"

abbrev pub protocol_kcp : String
protocol_kcp = "kcp"

abbrev pub protocol_quic : String
protocol_quic = "quic"

abbrev pub protocol_websocket : String
protocol_websocket = "websocket"

abbrev pub protocol_wss : String
protocol_wss = "wss"

abbrev pub reason_initialized : String
reason_initialized = "Initialized"

abbrev pub reason_initialize_failed : String
reason_initialize_failed = "InitializeFailed"

abbrev pub reason_generate_config_failed : String
reason_generate_config_failed = "GenerateConfigFailed"

abbrev pub phase_pending : String
phase_pending = "Pending"

abbrev pub phase_healthy : String
phase_healthy = "Healthy"

abbrev pub phase_unhealthy : String
phase_unhealthy = "Unhealthy"

abbrev pub phase_unknown : String
phase_unknown = "Unknown"

pub record FrpServerAuthOidc : Type 0 where
  pub client_id : String
  pub client_secret : String
  pub audience : String
  pub scope : String
  pub token_endpoint_url : String
  pub additional_endpoint_params : StringMap

pub record FrpServerAuth : Type 0 where
  pub method : String
  pub additional_scopes : List String
  pub token : String
  pub oidc : Option FrpServerAuthOidc

pub record FrpServerTransportQuic : Type 0 where
  pub keepalive_period : ℤ
  pub max_idle_timeout : ℤ
  pub max_incoming_streams : ℤ

pub record FrpServerTransportTls : Type 0 where
  pub secret_ref : Option SecretReference
  pub server_name : String
  pub disable_custom_tls_first_byte : Option Bool

pub record FrpServerTransport : Type 0 where
  pub protocol : String
  pub dial_server_timeout : ℤ
  pub dial_server_keep_alive : ℤ
  pub connect_server_local_ip : String
  pub proxy_url : String
  pub pool_count : ℤ
  pub tcp_mux : Option Bool
  pub tcp_mux_keepalive_interval : ℤ
  pub quic : Option FrpServerTransportQuic
  pub heartbeat_interval : ℤ
  pub heartbeat_timeout : ℤ
  pub tls : FrpServerTransportTls

pub record FrpServerSpec : Type 0 where
  pub auth : FrpServerAuth
  pub user : String
  pub server_addr : String
  pub server_port : ℤ
  pub external_ips : List String
  pub nat_hole_stun_server : String
  pub dns_server : String
  pub login_fail_exit : Option Bool
  pub transport : FrpServerTransport
  pub udp_packet_size : ℤ
  pub metadatas : StringMap

pub record ServiceReference : Type 0 where
  pub name : String
  pub namespace : String

pub record FrpServerStatus : Type 0 where
  pub phase : String
  pub conditions : List Condition
  pub reason : String
  pub service_references : List ServiceReference

pub record FrpServer : Type 0 where
  pub metadata : ObjectMeta
  pub open metadata use *
  pub spec : FrpServerSpec
  pub status : FrpServerStatus
