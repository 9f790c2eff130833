-- ===== src/Copies/Stored.antt =====
-- The structs of pkg/api/v1beta1/frpserver_types.go as memory holds them: a pointer, a slice or a map is
-- an address, or `none` for nil. The fields that need no copy of their own are as in Api/Types.antt.
use frp_provisioner.Prelude.{String, Bool, List, Option, ℕ}
use frp_provisioner.Prelude.Int.{ℤ}
use frp_provisioner.Go.{StringMap}
use frp_provisioner.Kube.{SecretReference, Condition}
use frp_provisioner.Api.{FrpServerTransportQuic, ServiceReference}

abbrev pub Ref : Type 0
Ref = Option ℕ

-- `metav1.TypeMeta`
pub record TypeMeta : Type 0 where
  pub kind : String
  pub api_version : String

pub record StoredOidc : Type 0 where
  pub client_id : String
  pub client_secret : String
  pub audience : String
  pub scope : String
  pub token_endpoint_url : String
  pub additional_endpoint_params : Ref

pub record StoredAuth : Type 0 where
  pub method : String
  pub additional_scopes : Ref
  pub token : String
  pub oidc : Ref

pub record StoredTls : Type 0 where
  pub secret_ref : Ref
  pub server_name : String
  pub disable_custom_tls_first_byte : Ref

pub record StoredTransport : Type 0 where
  pub protocol : String
  pub dial_server_timeout : ℤ
  pub dial_server_keep_alive : ℤ
  pub connect_server_local_ip : String
  pub proxy_url : String
  pub pool_count : ℤ
  pub tcp_mux : Ref
  pub tcp_mux_keepalive_interval : ℤ
  pub quic : Ref
  pub heartbeat_interval : ℤ
  pub heartbeat_timeout : ℤ
  pub tls : StoredTls

pub record StoredSpec : Type 0 where
  pub auth : StoredAuth
  pub user : String
  pub server_addr : String
  pub server_port : ℤ
  pub external_ips : Ref
  pub nat_hole_stun_server : String
  pub dns_server : String
  pub login_fail_exit : Ref
  pub transport : StoredTransport
  pub udp_packet_size : ℤ
  pub metadatas : Ref

pub record StoredStatus : Type 0 where
  pub phase : String
  pub conditions : Ref
  pub reason : String
  pub service_references : Ref

-- `Meta` and `ListMeta` are what memory holds of the metadata, which are the API machinery's.
pub record StoredServer (Meta : Type 0) : Type 0 where
  pub type_meta : TypeMeta
  pub metadata : Meta
  pub spec : StoredSpec
  pub status : StoredStatus

pub record StoredList (ListMeta : Type 0) : Type 0 where
  pub type_meta : TypeMeta
  pub metadata : ListMeta
  pub items : Ref

-- What one address holds: a struct, or the elements of a slice or a map.
pub data Cell (Meta ListMeta : Type 0) : Type 0 where
  flag : Bool → Cell Meta ListMeta
  secret : SecretReference → Cell Meta ListMeta
  texts : List String → Cell Meta ListMeta
  entries : StringMap → Cell Meta ListMeta
  conditions : List Condition → Cell Meta ListMeta
  references : List ServiceReference → Cell Meta ListMeta
  servers : List (StoredServer Meta) → Cell Meta ListMeta
  reference : ServiceReference → Cell Meta ListMeta
  oidc : StoredOidc → Cell Meta ListMeta
  auth : StoredAuth → Cell Meta ListMeta
  quic : FrpServerTransportQuic → Cell Meta ListMeta
  tls : StoredTls → Cell Meta ListMeta
  transport : StoredTransport → Cell Meta ListMeta
  spec : StoredSpec → Cell Meta ListMeta
  status : StoredStatus → Cell Meta ListMeta
  server : StoredServer Meta → Cell Meta ListMeta
  server_list : StoredList ListMeta → Cell Meta ListMeta
