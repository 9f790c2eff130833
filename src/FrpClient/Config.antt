-- ===== src/FrpClient/Config.antt =====
-- The client configuration of frp (`pkg/config/v1` of fatedier/frp) with the fields that
-- ValidateFrpServerConfig of pkg/utils/frpclient/validate.go sets, and how it sets them.
use frp_provisioner.Prelude.{String, Bool, List, [], Option, none, some, is_some}
use frp_provisioner.Prelude.Int.{ℤ, pos}
use frp_provisioner.Go.{StringMap}
use frp_provisioner.Api.{
  FrpServerSpec, FrpServerTransport, FrpServerTransportQuic, FrpServerAuth, FrpServerAuthOidc,
}

pub record AuthOidcClientConfig : Type 0 where
  pub client_id : String
  pub client_secret : String
  pub audience : String
  pub scope : String
  pub token_endpoint_url : String
  pub additional_endpoint_params : StringMap

pub record AuthClientConfig : Type 0 where
  pub method : String
  pub additional_scopes : List String
  pub token : String
  pub oidc : AuthOidcClientConfig

pub record TlsClientConfig : Type 0 where
  pub enable : Option Bool
  pub disable_custom_tls_first_byte : Option Bool
  pub cert_file : String
  pub key_file : String
  pub trusted_ca_file : String
  pub server_name : String

pub record QuicOptions : Type 0 where
  pub keepalive_period : ℤ
  pub max_idle_timeout : ℤ
  pub max_incoming_streams : ℤ

pub record ClientTransportConfig : Type 0 where
  pub protocol : String
  pub dial_server_timeout : ℤ
  pub dial_server_keep_alive : ℤ
  pub connect_server_local_ip : String
  pub proxy_url : String
  pub pool_count : ℤ
  pub tcp_mux : Option Bool
  pub tcp_mux_keepalive_interval : ℤ
  pub quic : QuicOptions
  pub heartbeat_interval : ℤ
  pub heartbeat_timeout : ℤ
  pub tls : TlsClientConfig

pub record ClientCommonConfig : Type 0 where
  pub auth : AuthClientConfig
  pub user : String
  pub server_addr : String
  pub server_port : ℤ
  pub nat_hole_stun_server : String
  pub dns_server : String
  pub login_fail_exit : Option Bool
  pub transport : ClientTransportConfig
  pub udp_packet_size : ℤ
  pub metadatas : StringMap

-- A nil pointer leaves the zero value.
oidc_config : Option FrpServerAuthOidc → AuthOidcClientConfig
oidc_config none = record {
  client_id = "";
  client_secret = "";
  audience = "";
  scope = "";
  token_endpoint_url = "";
  additional_endpoint_params = [];
}
oidc_config (some o) = record {
  client_id = o.client_id;
  client_secret = o.client_secret;
  audience = o.audience;
  scope = o.scope;
  token_endpoint_url = o.token_endpoint_url;
  additional_endpoint_params = o.additional_endpoint_params;
}

quic_config : Option FrpServerTransportQuic → QuicOptions
quic_config none = record {
  keepalive_period = pos 0;
  max_idle_timeout = pos 0;
  max_incoming_streams = pos 0;
}
quic_config (some q) = record {
  keepalive_period = q.keepalive_period;
  max_idle_timeout = q.max_idle_timeout;
  max_incoming_streams = q.max_incoming_streams;
}

auth_config : FrpServerAuth → AuthClientConfig
unfolding oidc_config
auth_config a = record {
  method = a.method;
  additional_scopes = a.additional_scopes;
  token = a.token;
  oidc = oidc_config a.oidc;
}

transport_config : FrpServerTransport → ClientTransportConfig
unfolding quic_config
transport_config t = record {
  protocol = t.protocol;
  dial_server_timeout = t.dial_server_timeout;
  dial_server_keep_alive = t.dial_server_keep_alive;
  connect_server_local_ip = t.connect_server_local_ip;
  proxy_url = t.proxy_url;
  pool_count = t.pool_count;
  tcp_mux = t.tcp_mux;
  tcp_mux_keepalive_interval = t.tcp_mux_keepalive_interval;
  quic = quic_config t.quic;
  heartbeat_interval = t.heartbeat_interval;
  heartbeat_timeout = t.heartbeat_timeout;
  tls = record {
    enable = some (is_some t.tls.secret_ref);
    disable_custom_tls_first_byte = t.tls.disable_custom_tls_first_byte;
    cert_file = "";
    key_file = "";
    trusted_ca_file = "";
    server_name = t.tls.server_name;
  };
}

-- The configuration before the secret is read.
unfoldable pub common_config : FrpServerSpec → ClientCommonConfig
unfolding auth_config transport_config
common_config s = record {
  auth = auth_config s.auth;
  user = s.user;
  server_addr = s.server_addr;
  server_port = s.server_port;
  nat_hole_stun_server = s.nat_hole_stun_server;
  dns_server = s.dns_server;
  login_fail_exit = s.login_fail_exit;
  transport = transport_config s.transport;
  udp_packet_size = s.udp_packet_size;
  metadatas = s.metadatas;
}

-- `commonConfig.Transport.TLS` set anew
abbrev pub with_tls : ClientCommonConfig → TlsClientConfig → ClientCommonConfig
with_tls c tls = record c { transport = record c.transport { tls = tls } }
