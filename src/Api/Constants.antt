-- ===== src/Api/Constants.antt =====
-- pkg/api/v1beta1/constants.go
use frp_provisioner.Prelude.{String, List, [], ◌∷◌}
use frp_provisioner.Api.Types.{
  auth_method_token, auth_method_oidc, auth_scope_heart_beats, auth_scope_new_work_conns,
  protocol_tcp, protocol_kcp, protocol_quic, protocol_websocket, protocol_wss,
}

abbrev pub auth_methods : List String
auth_methods = auth_method_token ∷ auth_method_oidc ∷ []

abbrev pub auth_scopes : List String
auth_scopes = auth_scope_heart_beats ∷ auth_scope_new_work_conns ∷ []

abbrev pub transport_protocols : List String
transport_protocols =
    protocol_tcp ∷ protocol_kcp ∷ protocol_quic ∷ protocol_wss ∷ protocol_websocket ∷ []

abbrev pub default_ca_file_name : String
default_ca_file_name = "tls.ca"

abbrev pub default_cert_file_name : String
default_cert_file_name = "tls.crt"

abbrev pub default_key_file_name : String
default_key_file_name = "tls.key"

abbrev pub default_nat_hole_stun_addr : String
default_nat_hole_stun_addr = "stun.easyvoip.com:3478"

abbrev pub finalizer_name : String
finalizer_name = "finalizer.gofrp.io/tracking"

abbrev pub label_service_name_key : String
label_service_name_key = "gofrp.io/service-name"

abbrev pub label_controller_uid_key : String
label_controller_uid_key = "gofrp.io/controller-uid"

abbrev pub annotation_frp_server_name_key : String
annotation_frp_server_name_key = "service.beta.kubernetes.io/frp-server-name"
