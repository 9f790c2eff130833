-- ===== src/FrpServer/Webhook.antt =====
-- pkg/controller/frpserver_validator.go: the checks of an frp server before it is stored.
use frp_provisioner.Prelude.{String, not, ◌&&◌, Option, none, some, ◌==◌, is_empty, if◌then◌else◌}
use frp_provisioner.Prelude.Int.{ℤ, pos, le_int, lt_int}
use frp_provisioner.Go.{note_if, GoError, errorf_w, join, M, error_of, return_error, ◌>>=◌}
use frp_provisioner.Kube.{SecretReference, Machinery, Client, World}
use frp_provisioner.Api.{
  FrpServerAuth, FrpServerTransport, FrpServerSpec, auth_methods, auth_scopes, auth_method_token,
  transport_protocols,
}
use frp_provisioner.FrpClient.{Host, validate_port, validate_frp_server_config}

module _ (L : Machinery) where
  unfoldable pub auth_errors : FrpServerAuth → Option GoError → Option GoError
  unfolding note_if
  auth_errors a errs =
      let errs =
        note_if (not (L.contains auth_methods a.method))
          "invalid spec.auth.method, optional values are [token oidc]" errs in
      let errs =
        note_if (not (L.every auth_scopes a.additional_scopes))
          "invalid spec.auth.authScopes, optional values are [HeartBeats NewWorkConns]" errs in
      note_if ((a.method == auth_method_token) && (a.token == ""))
        "field spec.auth.token should not be empty" errs

  unfoldable pub heartbeat_errors : FrpServerTransport → Option GoError → Option GoError
  unfolding note_if
  heartbeat_errors t errs =
      if lt_int (pos 0) t.heartbeat_timeout && lt_int (pos 0) t.heartbeat_interval
      then note_if (lt_int t.heartbeat_timeout t.heartbeat_interval)
          "invalid spec.transport.heartbeatTimeout, spec.transport.heartbeatTimeout should not less than spec.transport.heartbeatInterval"
          errs
      else errs

  -- The protocol is looked at only if there is a secret.
  unfoldable pub tls_errors : String → Option SecretReference → Option GoError → Option GoError
  unfolding note_if
  tls_errors protocol none errs = errs
  tls_errors protocol (some ref) errs =
      let errs =
        note_if (not (ref.name == "") && (ref.namespace == ""))
          "field spec.transport.tls.secretRef.namespace should not be empty when spec.transport.tls.secretRef.name is not empty"
          errs in
      let errs =
        note_if ((ref.name == "") && not (ref.namespace == ""))
          "field spec.transport.tls.secretRef.name should not be empty when spec.transport.tls.secretRef.namespace is not empty"
          errs in
      note_if (not (L.contains transport_protocols protocol))
        "invalid spec.transport.protocol, optional values are [tcp kcp quic wss websocket]" errs

  -- The port of a new object, with the result of ValidatePort, and of a changed one.
  unfoldable pub created_port_errors : Option GoError → Option GoError → Option GoError
  created_port_errors none errs = errs
  created_port_errors (some e) errs =
      join errs (some (errorf_w "invalid field spec.serverPort, got: " e))

  unfoldable pub updated_port_errors : ℤ → Option GoError → Option GoError
  unfolding note_if
  updated_port_errors port errs =
      note_if (le_int port (pos 0)) "field spec.serverPort should not be empty" errs

  -- What ValidateCreate and ValidateUpdate check, around their checks of the port.
  unfoldable pub field_errors : (Option GoError → Option GoError) → FrpServerSpec → Option GoError
  unfolding auth_errors heartbeat_errors tls_errors note_if
  field_errors port_errors s =
      let errs = auth_errors s.auth none in
      let errs = note_if (s.server_addr == "") "field spec.serverAddr should not be empty" errs in
      let errs = port_errors errs in
      let errs =
        note_if (is_empty s.external_ips) "field spec.externalIPs should not be empty" errs in
      let errs = heartbeat_errors s.transport errs in
      tls_errors s.transport.protocol s.transport.tls.secret_ref errs

  unfoldable pub create_errors : (ℤ → String) → FrpServerSpec → Option GoError
  unfolding field_errors created_port_errors validate_port
  create_errors decimal s =
      field_errors (created_port_errors (validate_port decimal s.server_port)) s

  unfoldable pub update_errors : FrpServerSpec → Option GoError
  unfolding field_errors updated_port_errors
  update_errors s = field_errors (updated_port_errors s.server_port) s

  module _ (C : Client) (H : Host C.State) where
    -- The login check, which is made only if nothing was wrong so far.
    unfoldable pub admit_login : Option GoError → M (World C) (Unit {0})
    admit_login none = return_error none
    admit_login (some e) =
        return_error (join none (some (errorf_w "failed to validate frp config, got: " e)))

    unfoldable pub admit : FrpServerSpec → Option GoError → M (World C) (Unit {0})
    unfolding admit_login
    admit s none = error_of (validate_frp_server_config C H s) >>= admit_login
    admit s (some e) = return_error (some e)

    unfoldable pub validate_create : (ℤ → String) → FrpServerSpec → M (World C) (Unit {0})
    unfolding admit create_errors
    validate_create decimal s = admit s (create_errors decimal s)

    unfoldable pub validate_update : FrpServerSpec → M (World C) (Unit {0})
    unfolding admit update_errors
    validate_update s = admit s (update_errors s)

    unfoldable pub validate_delete : M (World C) (Unit {0})
    validate_delete = return_error none
