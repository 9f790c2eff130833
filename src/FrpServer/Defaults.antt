-- ===== src/FrpServer/Defaults.antt =====
-- pkg/controller/frpserver_validator.go: Default, which fills in what a new object leaves out.
use frp_provisioner.Prelude.{
  true, false, sym, Option, none, some, ◌==◌, ◌≡◌, refl, ap, ◌∙◌, inl, inr, if◌then◌else◌,
  Bool-cases, Option-cases,
}
use frp_provisioner.Prelude.Int.{pos}
use frp_provisioner.Go.{GoError, M, crash, return_error}
use frp_provisioner.Kube.{text_twice, int_twice, flag_twice, Machinery, IsLawful}
use frp_provisioner.Api.{
  FrpServer, FrpServerSpec, FrpServerTransport, FrpServerTransportQuic, auth_method_token,
  protocol_tcp, protocol_quic, default_nat_hole_stun_addr,
}

abbrev with_spec : FrpServer → FrpServerSpec → FrpServer
with_spec obj spec = record obj { spec = spec }

abbrev with_quic : FrpServerSpec → FrpServerTransportQuic → FrpServerSpec
with_quic s q = record s { transport = record s.transport { quic = some q } }

module _ (L : Machinery) where
  unfoldable pub default_transport : FrpServerTransport → FrpServerTransport
  default_transport t = record t {
    protocol = L.empty_or_text t.protocol protocol_tcp;
    dial_server_timeout = L.empty_or_int t.dial_server_timeout (pos 10);
    dial_server_keep_alive = L.empty_or_int t.dial_server_keep_alive (pos 7200);
    pool_count = L.empty_or_int t.pool_count (pos 1);
    tcp_mux = L.empty_or_flag t.tcp_mux (some true);
    tcp_mux_keepalive_interval = L.empty_or_int t.tcp_mux_keepalive_interval (pos 60);
    heartbeat_interval = L.empty_or_int t.heartbeat_interval (pos 30);
    heartbeat_timeout = L.empty_or_int t.heartbeat_timeout (pos 90);
    tls = record t.tls {
      disable_custom_tls_first_byte =
          L.empty_or_flag t.tls.disable_custom_tls_first_byte (some true);
    };
  }

  -- Everything but the options for QUIC.
  unfoldable pub default_spec : FrpServerSpec → FrpServerSpec
  unfolding default_transport
  default_spec s = record s {
    auth = record s.auth { method = L.empty_or_text s.auth.method auth_method_token };
    server_port = L.empty_or_int s.server_port (pos 7000);
    login_fail_exit = L.empty_or_flag s.login_fail_exit (some true);
    nat_hole_stun_server = L.empty_or_text s.nat_hole_stun_server default_nat_hole_stun_addr;
    udp_packet_size = L.empty_or_int s.udp_packet_size (pos 1500);
    transport = default_transport s.transport;
  }

  unfoldable pub default_quic : FrpServerTransportQuic → FrpServerTransportQuic
  default_quic q = record {
    keepalive_period = L.empty_or_int q.keepalive_period (pos 10);
    max_idle_timeout = L.empty_or_int q.max_idle_timeout (pos 30);
    max_incoming_streams = L.empty_or_int q.max_incoming_streams (pos 100000);
  }

  -- The last part: a nil pointer to the options is dereferenced. The error is that of the context.
  unfoldable pub fill_quic : Option GoError → Option FrpServerTransportQuic → M FrpServer (Unit {0})
  unfolding default_quic
  fill_quic cancelled none obj = crash "nil pointer dereference" obj
  fill_quic cancelled (some q) obj =
      return_error cancelled (with_spec obj (with_quic obj.spec (default_quic q)))

  unfoldable pub finish_defaults : Option GoError → M FrpServer (Unit {0})
  unfolding fill_quic
  finish_defaults cancelled obj =
      if obj.spec.transport.protocol == protocol_quic
      then fill_quic cancelled obj.spec.transport.quic obj
      else return_error cancelled obj

  -- Default, on the object that it changes in place.
  unfoldable pub default : Option GoError → M FrpServer (Unit {0})
  unfolding default_spec finish_defaults
  default cancelled obj = finish_defaults cancelled (with_spec obj (default_spec obj.spec))

module _ (L : Machinery) (lawful : IsLawful L) where
  spec_twice : (s : FrpServerSpec) → default_spec L (default_spec L s) ≡ default_spec L s
  unfolding default_spec default_transport
  spec_twice s = simp (text_twice L lawful, int_twice L lawful, flag_twice L lawful)

  quic_twice : (q : FrpServerTransportQuic) → default_quic L (default_quic L q) ≡ default_quic L q
  unfolding default_quic
  quic_twice q = simp (int_twice L lawful)

  module _ (cancelled : Option GoError) where
    return_error-state : (o : FrpServer) → (return_error cancelled o).1 ≡ o
    return_error-state o = kept cancelled
      where
        kept : (e : Option GoError) → (return_error e o).1 ≡ o
        kept none = refl
        kept (some e) = refl

    finish_plain :
        (o : FrpServer)
        → (o.spec.transport.protocol == protocol_quic) ≡ false
        → finish_defaults L cancelled o ≡ return_error cancelled o
    unfolding finish_defaults
    finish_plain o plain = rw (plain, if◌then◌else◌)

    finish_missing :
        (o : FrpServer)
        → (o.spec.transport.protocol == protocol_quic) ≡ true
        → o.spec.transport.quic ≡ none
        → finish_defaults L cancelled o ≡ crash "nil pointer dereference" o
    unfolding finish_defaults fill_quic
    finish_missing o quic missing = rw (quic, if◌then◌else◌, missing)

    abbrev filled_quic : FrpServer → FrpServerTransportQuic → FrpServer
    filled_quic o q = with_spec o (with_quic o.spec (default_quic L q))

    finish_quic :
        (o : FrpServer) (q : FrpServerTransportQuic)
        → (o.spec.transport.protocol == protocol_quic) ≡ true
        → o.spec.transport.quic ≡ some q
        → finish_defaults L cancelled o ≡ return_error cancelled (filled_quic o q)
    unfolding finish_defaults fill_quic
    finish_quic o q quic e = rw (quic, if◌then◌else◌, e)

    default_filled :
        (o : FrpServer)
        → default_spec L o.spec ≡ o.spec
        → default L cancelled o ≡ finish_defaults L cancelled o
    unfolding default
    default_filled o filled = ap (λ s. finish_defaults L cancelled (with_spec o s)) filled

    -- The same object is left by a run on it.
    again :
        (o left : FrpServer)
        → finish_defaults L cancelled o ≡ return_error cancelled left
        → default L cancelled left ≡ return_error cancelled left
        → default L cancelled (finish_defaults L cancelled o).1 ≡ finish_defaults L cancelled o
    again o left e h =
        ap (λ x. default L cancelled x.1) e
        ∙ ap (default L cancelled) (return_error-state left)
        ∙ h
        ∙ sym e

    -- The end, run again on what it left, where the fields in front are filled in already.
    finish_again :
        (o : FrpServer)
        → default_spec L o.spec ≡ o.spec
        → default L cancelled (finish_defaults L cancelled o).1 ≡ finish_defaults L cancelled o
    unfolding default_spec default_transport
    finish_again o filled = elim (Bool-cases (o.spec.transport.protocol == protocol_quic)) [
      | inl quic ↦ elim (Option-cases o.spec.transport.quic) [
        | inl missing ↦
            ap (λ x. default L cancelled x.1) (finish_missing o quic missing)
            ∙ default_filled o filled
        | inr (q, e) ↦
            let left = filled_quic o q in
            again o left (finish_quic o q quic e) (
              default_filled left (ap (λ s. with_quic s (default_quic L q)) filled)
              ∙ finish_quic left (default_quic L q) quic refl
              ∙ ap (λ r. return_error cancelled (with_spec o (with_quic o.spec r))) (quic_twice q))
      ]
      | inr plain ↦
          again o o (finish_plain o plain) (default_filled o filled ∙ finish_plain o plain)
    ]

-- Filling in the defaults is idempotent: run again on what it left of any object, it leaves that and
-- ends as it did before, be it with success, the error of the context or the panic for QUIC.
pub default-default :
    (L : Machinery)
    → IsLawful L
    → (cancelled : Option GoError) (obj : FrpServer)
    → default L cancelled (default L cancelled obj).1 ≡ default L cancelled obj
unfolding default
default-default L lawful cancelled obj =
    finish_again L lawful cancelled (with_spec obj (default_spec L obj.spec))
      (spec_twice L lawful obj.spec)
