-- ===== src/Tests/Copies.antt =====
-- The deep copy of a list of one server.
use frp_provisioner.Prelude.{String, List, [], ◌∷◌, ◌++◌, none, some, length, ◌≡◌, refl}
use frp_provisioner.Prelude.Int.{pos}
use frp_provisioner.Kube.{ObjectMeta}
use frp_provisioner.Api.{auth_method_token, protocol_tcp, phase_pending}
use frp_provisioner.Copies.{
  TypeMeta, StoredServer, Cell, pure, MetaLibrary, Memory, Object, server_list, deep_copy_object,
  Meanings, StandsSpec, IsCopying, Value, many, StandsObject, pure-Yields,
  deep_copy_object-StandsObject,
}
use frp_provisioner.Tests.Cluster.{frps, spec}

-- Metadata without pointers
abbrev machinery : MetaLibrary
machinery = record {
  Meta = ObjectMeta;
  ListMeta = String;
  copy_meta = pure;
  copy_list_meta = pure;
  copy_condition = λ c. c;
}

abbrev meanings : Meanings machinery
meanings = record { Listing = String; StandsMeta = λ h a v. a ≡ v; StandsListMeta = λ h a v. a ≡ v }

machinery-IsCopying : IsCopying machinery meanings
machinery-IsCopying = record {
  copies_meta = λ old made a v same. pure-Yields {a = a} (λ g. same);
  copies_list_meta = λ old made a v same. pure-Yields {a = a} (λ g. same);
  same_condition = λ c. refl;
}

abbrev server_kind : TypeMeta
server_kind = record { kind = "FrpServer"; api_version = "v1beta1" }

abbrev list_kind : TypeMeta
list_kind = record { kind = "FrpServerList"; api_version = "v1beta1" }

-- The addresses of the list, its items, the external address and the reference to the secret are 0 to 3.
abbrev stored : StoredServer ObjectMeta
stored = record {
  type_meta = server_kind;
  metadata = frps.metadata;
  spec = record {
    auth = record {
      method = auth_method_token;
      additional_scopes = none;
      token = "secret";
      oidc = none;
    };
    user = "";
    server_addr = "frps.example.org";
    server_port = pos 7000;
    external_ips = some 2;
    nat_hole_stun_server = "";
    dns_server = "";
    login_fail_exit = none;
    transport = record {
      protocol = protocol_tcp;
      dial_server_timeout = pos 0;
      dial_server_keep_alive = pos 0;
      connect_server_local_ip = "";
      proxy_url = "";
      pool_count = pos 0;
      tcp_mux = none;
      tcp_mux_keepalive_interval = pos 0;
      quic = none;
      heartbeat_interval = pos 0;
      heartbeat_timeout = pos 0;
      tls = record { secret_ref = some 3; server_name = ""; disable_custom_tls_first_byte = none };
    };
    udp_packet_size = pos 0;
    metadatas = none;
  };
  status = record {
    phase = phase_pending;
    conditions = none;
    reason = "";
    service_references = none;
  };
}

abbrev memory : List (Memory machinery)
memory =
    Cell.server_list (record { type_meta = list_kind; metadata = "17"; items = some 1 })
    ∷ Cell.servers (stored ∷ [])
    ∷ Cell.texts ("192.0.2.1" ∷ [])
    ∷ Cell.secret (record { name = "tls"; namespace = "shop" })
    ∷ []

abbrev value : Value String
value = many list_kind "17" ((server_kind, frps) ∷ [])

spec-StandsSpec : StandsSpec machinery memory stored.spec spec
spec-StandsSpec = (
  refl,
  (refl, refl, refl),
  ("192.0.2.1" ∷ [], refl, refl),
  refl,
  (refl, refl, refl, (refl, (_, refl, (_, refl, refl)), refl)),
  refl,
)

memory-StandsObject : StandsObject machinery meanings memory (server_list (some 0)) value
memory-StandsObject = (
  0,
  refl,
  _,
  refl,
  list_kind,
  "17",
  (server_kind, frps) ∷ [],
  refl,
  (
    refl,
    refl,
    (
      _,
      refl,
      ((server_kind, frps), [], refl, (refl, refl, spec-StandsSpec, (refl, refl, refl)), refl),
    ),
  ),
)

deep_copy_object-StandsObject_example :
    (c : Object) × (new : List (Memory machinery)) × (deep_copy_object machinery
        (server_list (some 0))
        memory
      ≡ some (some c, memory ++ new))
    × ((written more : List (Memory machinery))
        → length written ≡ length memory
        → StandsObject machinery meanings (written ++ (new ++ more)) c value)
deep_copy_object-StandsObject_example =
    deep_copy_object-StandsObject machinery meanings machinery-IsCopying memory
      (server_list (some 0)) value memory-StandsObject
