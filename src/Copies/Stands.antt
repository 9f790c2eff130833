-- ===== src/Copies/Stands.antt =====
-- What is stored at an address, in the terms of Api/Types.antt: the relation of a stored struct with the
-- value that it stands for. A nil slice or map is an empty one there.
use frp_provisioner.Prelude.{String, List, [], ◌∷◌, Option, none, some, ◌≡◌}
use frp_provisioner.Prelude.Int.{ℤ}
use frp_provisioner.Go.{StringMap, lookup}
use frp_provisioner.Kube.{ObjectMeta}
use frp_provisioner.Api.{
  FrpServerAuthOidc, FrpServerAuth, FrpServerTransportTls, FrpServerTransport, FrpServerSpec,
  FrpServerStatus, FrpServer,
}
use frp_provisioner.Copies.Stored.{
  Ref, TypeMeta, StoredOidc, StoredAuth, StoredTls, StoredTransport, StoredSpec, StoredStatus,
  StoredServer, StoredList,
}
use frp_provisioner.Copies.Heap.{Slot, read}
use frp_provisioner.Copies.Cells.{
  flag_slot, secret_slot, texts_slot, entries_slot, conditions_slot, references_slot, servers_slot,
  oidc_slot, quic_slot,
}
use frp_provisioner.Copies.Defs.{MetaLibrary, Memory}

-- The address holds something that stands for the value, or is nil and the value is the empty one.
abbrev pub Refers : {C A V : Type 0} → Slot C A → (A → V → Type 0) → V → List C → Ref → V → Type 0
Refers slot Stands empty h none v = v ≡ empty
Refers {A = A} slot Stands empty h (some p) v = (a : A) × (read slot h p ≡ some a) × Stands a v

-- A pointer's target
abbrev pub IsTarget : {A V : Type 0} → (A → V → Type 0) → A → Option V → Type 0
IsTarget {V = V} Stands a v = (x : V) × (v ≡ some x) × Stands a x

abbrev pub IsSame : {A : Type 0} → A → A → Type 0
IsSame a b = a ≡ b

-- Maps are the same when their entries are, whatever their order.
abbrev pub SameEntries : StringMap → StringMap → Type 0
SameEntries m n = (k : String) → lookup k m ≡ lookup k n

module _ (L : MetaLibrary) where
  abbrev Heap : Type 0
  Heap = List (Memory L)

  abbrev pub StandsOidc : Heap → StoredOidc → FrpServerAuthOidc → Type 0
  StandsOidc h a v =
      ◌≡◌ {A = String × String × String × String × String}
        (a.client_id, a.client_secret, a.audience, a.scope, a.token_endpoint_url)
        (v.client_id, v.client_secret, v.audience, v.scope, v.token_endpoint_url)
      × Refers entries_slot SameEntries [] h a.additional_endpoint_params
          v.additional_endpoint_params

  abbrev pub StandsAuth : Heap → StoredAuth → FrpServerAuth → Type 0
  StandsAuth h a v =
      ◌≡◌ {A = String × String} (a.method, a.token) (v.method, v.token)
      × Refers texts_slot IsSame [] h a.additional_scopes v.additional_scopes
      × Refers oidc_slot (IsTarget (StandsOidc h)) none h a.oidc v.oidc

  abbrev pub StandsTls : Heap → StoredTls → FrpServerTransportTls → Type 0
  StandsTls h a v =
      (a.server_name ≡ v.server_name)
      × Refers secret_slot (IsTarget IsSame) none h a.secret_ref v.secret_ref
      × Refers flag_slot (IsTarget IsSame) none h a.disable_custom_tls_first_byte
          v.disable_custom_tls_first_byte

  abbrev pub StandsTransport : Heap → StoredTransport → FrpServerTransport → Type 0
  StandsTransport h a v =
      ◌≡◌ {A = String × ℤ × ℤ × String × String × ℤ × ℤ × ℤ × ℤ}
        (
          a.protocol, a.dial_server_timeout, a.dial_server_keep_alive, a.connect_server_local_ip,
          a.proxy_url, a.pool_count, a.tcp_mux_keepalive_interval, a.heartbeat_interval,
          a.heartbeat_timeout,
        )
        (
          v.protocol, v.dial_server_timeout, v.dial_server_keep_alive, v.connect_server_local_ip,
          v.proxy_url, v.pool_count, v.tcp_mux_keepalive_interval, v.heartbeat_interval,
          v.heartbeat_timeout,
        )
      × Refers flag_slot (IsTarget IsSame) none h a.tcp_mux v.tcp_mux
      × Refers quic_slot (IsTarget IsSame) none h a.quic v.quic
      × StandsTls h a.tls v.tls

  abbrev pub StandsSpec : Heap → StoredSpec → FrpServerSpec → Type 0
  StandsSpec h a v =
      ◌≡◌ {A = String × String × ℤ × String × String × ℤ}
        (
          a.user, a.server_addr, a.server_port, a.nat_hole_stun_server, a.dns_server,
          a.udp_packet_size,
        )
        (
          v.user, v.server_addr, v.server_port, v.nat_hole_stun_server, v.dns_server,
          v.udp_packet_size,
        )
      × StandsAuth h a.auth v.auth
      × Refers texts_slot IsSame [] h a.external_ips v.external_ips
      × Refers flag_slot (IsTarget IsSame) none h a.login_fail_exit v.login_fail_exit
      × StandsTransport h a.transport v.transport
      × Refers entries_slot SameEntries [] h a.metadatas v.metadatas

  abbrev pub StandsStatus : Heap → StoredStatus → FrpServerStatus → Type 0
  StandsStatus h a v =
      ◌≡◌ {A = String × String} (a.phase, a.reason) (v.phase, v.reason)
      × Refers conditions_slot IsSame [] h a.conditions v.conditions
      × Refers references_slot IsSame [] h a.service_references v.service_references

  -- What the stored metadata stand for is the API machinery's to say.
  pub record Meanings : Type 1 where
    pub Listing : Type 0
    pub StandsMeta : Heap → L.Meta → ObjectMeta → Type 0
    pub StandsListMeta : Heap → L.ListMeta → Listing → Type 0

  module _ (K : Meanings) where
    abbrev pub StandsServer : Heap → StoredServer L.Meta → TypeMeta × FrpServer → Type 0
    StandsServer h a (kind, v) =
        (a.type_meta ≡ kind)
        × K.StandsMeta h a.metadata v.metadata
        × StandsSpec h a.spec v.spec
        × StandsStatus h a.status v.status

    abbrev pub StandsServers :
        Heap → List (StoredServer L.Meta) → List (TypeMeta × FrpServer) → Type 0
    StandsServers h [] vs = vs ≡ []
    StandsServers h (a ∷ l) vs =
        (v : TypeMeta × FrpServer) × (ws : List (TypeMeta × FrpServer)) × (vs ≡ v ∷ ws)
        × StandsServer h a v
        × StandsServers h l ws

    abbrev pub StandsList :
        Heap → StoredList L.ListMeta → TypeMeta × K.Listing × List (TypeMeta × FrpServer) → Type 0
    StandsList h a (kind, listing, vs) =
        (a.type_meta ≡ kind)
        × K.StandsListMeta h a.metadata listing
        × Refers servers_slot (StandsServers h) [] h a.items vs
