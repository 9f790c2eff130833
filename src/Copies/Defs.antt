-- ===== src/Copies/Defs.antt =====
-- DeepCopyInto, DeepCopy and DeepCopyObject of the types of the API. DeepCopyInto returns what it writes
-- to `*out`; a cell is added when what it holds is complete, which is later than `new`.
use frp_provisioner.Prelude.{List, [], ◌∷◌, none, some, map}
use frp_provisioner.Go.{StringMap, insert}
use frp_provisioner.Kube.{Condition}
use frp_provisioner.Copies.Stored.{
  Ref, StoredOidc, StoredAuth, StoredTls, StoredTransport, StoredSpec, StoredStatus, StoredServer,
  StoredList, Cell,
}
use frp_provisioner.Copies.Heap.{Slot, Cmd, pure, ◌>>=◌, load, allocate}
use frp_provisioner.Copies.Cells.{
  flag_slot, secret_slot, texts_slot, entries_slot, conditions_slot, references_slot, servers_slot,
  oidc_slot, quic_slot,
}

-- DeepCopyInto of the metadata and of a condition, which are the API machinery's.
pub record MetaLibrary : Type 1 where
  pub Meta : Type 0
  pub ListMeta : Type 0
  pub copy_meta : Meta → Cmd (Cell Meta ListMeta) Meta
  pub copy_list_meta : ListMeta → Cmd (Cell Meta ListMeta) ListMeta
  pub copy_condition : Condition → Condition

-- `if *in != nil { *out = new(T); (*in).DeepCopyInto(*out) }`, and the same of a slice, a map and the
-- receiver of DeepCopy
unfoldable pub copy_unless_nil : {C A : Type 0} → Slot C A → (A → Cmd C A) → Ref → Cmd C Ref
unfolding load allocate
copy_unless_nil slot f none = pure none
copy_unless_nil slot f (some p) = do a ← load slot p; b ← f a; q ← allocate slot b; pure (some q)

-- `for key, val := range *in`: Go leaves the order open; this one starts with the last entry.
unfoldable pub copy_entries : StringMap → StringMap
copy_entries [] = []
copy_entries ((k, v) ∷ m) = insert k v (copy_entries m)

module _ (L : MetaLibrary) where
  abbrev pub Memory : Type 0
  Memory = Cell L.Meta L.ListMeta

  unfoldable pub copy_oidc : StoredOidc → Cmd Memory StoredOidc
  unfolding copy_unless_nil copy_entries
  copy_oidc a = do
    params ← copy_unless_nil entries_slot (λ m. pure (copy_entries m)) a.additional_endpoint_params
    pure (record a { additional_endpoint_params = params })

  unfoldable pub copy_auth : StoredAuth → Cmd Memory StoredAuth
  unfolding copy_unless_nil copy_oidc
  copy_auth a = do
    scopes ← copy_unless_nil texts_slot pure a.additional_scopes
    oidc ← copy_unless_nil oidc_slot copy_oidc a.oidc
    pure (record a { additional_scopes = scopes; oidc = oidc })

  unfoldable pub copy_tls : StoredTls → Cmd Memory StoredTls
  unfolding copy_unless_nil
  copy_tls a = do
    secret ← copy_unless_nil secret_slot pure a.secret_ref
    disable ← copy_unless_nil flag_slot pure a.disable_custom_tls_first_byte
    pure (record a { secret_ref = secret; disable_custom_tls_first_byte = disable })

  unfoldable pub copy_transport : StoredTransport → Cmd Memory StoredTransport
  unfolding copy_unless_nil copy_tls
  copy_transport a = do
    mux ← copy_unless_nil flag_slot pure a.tcp_mux
    quic ← copy_unless_nil quic_slot pure a.quic
    tls ← copy_tls a.tls
    pure (record a { tcp_mux = mux; quic = quic; tls = tls })

  unfoldable pub copy_spec : StoredSpec → Cmd Memory StoredSpec
  unfolding copy_auth copy_unless_nil copy_transport copy_entries
  copy_spec a = do
    auth ← copy_auth a.auth
    ips ← copy_unless_nil texts_slot pure a.external_ips
    fail_exit ← copy_unless_nil flag_slot pure a.login_fail_exit
    transport ← copy_transport a.transport
    metadatas ← copy_unless_nil entries_slot (λ m. pure (copy_entries m)) a.metadatas
    pure (record a {
      auth = auth;
      external_ips = ips;
      login_fail_exit = fail_exit;
      transport = transport;
      metadatas = metadatas;
    })

  unfoldable pub copy_status : StoredStatus → Cmd Memory StoredStatus
  unfolding copy_unless_nil
  copy_status a = do
    conditions ← copy_unless_nil conditions_slot (λ cs. pure (map L.copy_condition cs)) a.conditions
    services ← copy_unless_nil references_slot pure a.service_references
    pure (record a { conditions = conditions; service_references = services })

  unfoldable pub copy_server : StoredServer L.Meta → Cmd Memory (StoredServer L.Meta)
  unfolding copy_spec copy_status
  copy_server a = do
    metadata ← L.copy_meta a.metadata
    spec ← copy_spec a.spec
    status ← copy_status a.status
    pure (record a { metadata = metadata; spec = spec; status = status })

  -- `for i := range *in`
  unfoldable pub copy_servers : List (StoredServer L.Meta) → Cmd Memory (List (StoredServer L.Meta))
  unfolding copy_server
  copy_servers [] = pure []
  copy_servers (a ∷ rest) = do b ← copy_server a; bs ← copy_servers rest; pure (b ∷ bs)

  unfoldable pub copy_list : StoredList L.ListMeta → Cmd Memory (StoredList L.ListMeta)
  unfolding copy_unless_nil copy_servers
  copy_list a = do
    metadata ← L.copy_list_meta a.metadata
    items ← copy_unless_nil servers_slot copy_servers a.items
    pure (record a { metadata = metadata; items = items })
