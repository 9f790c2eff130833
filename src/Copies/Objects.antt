-- ===== src/Copies/Objects.antt =====
-- DeepCopy of each type, and DeepCopyObject of the two that are objects.
use frp_provisioner.Prelude.{Option, none, some}
use frp_provisioner.Copies.Stored.{Ref}
use frp_provisioner.Copies.Heap.{Cmd, pure, ◌>>=◌}
use frp_provisioner.Copies.Cells.{
  reference_slot, oidc_slot, auth_slot, quic_slot, tls_slot, transport_slot, spec_slot, status_slot,
  server_slot, server_list_slot,
}
use frp_provisioner.Copies.Defs.{
  MetaLibrary, Memory, copy_unless_nil, copy_oidc, copy_auth, copy_tls, copy_transport, copy_spec,
  copy_status, copy_server, copy_list,
}

-- The pointers that satisfy `runtime.Object`.
pub data Object : Type 0 where
  server : Ref → Object
  server_list : Ref → Object

module _ (L : MetaLibrary) where
  -- ServiceReference and FrpServerTransportQUIC have nothing to copy but the struct.
  unfoldable pub deep_copy_reference : Ref → Cmd (Memory L) Ref
  unfolding copy_unless_nil
  deep_copy_reference = copy_unless_nil reference_slot pure

  unfoldable pub deep_copy_quic : Ref → Cmd (Memory L) Ref
  unfolding copy_unless_nil
  deep_copy_quic = copy_unless_nil quic_slot pure

  unfoldable pub deep_copy_oidc : Ref → Cmd (Memory L) Ref
  unfolding copy_unless_nil
  deep_copy_oidc = copy_unless_nil oidc_slot (copy_oidc L)

  unfoldable pub deep_copy_auth : Ref → Cmd (Memory L) Ref
  unfolding copy_unless_nil
  deep_copy_auth = copy_unless_nil auth_slot (copy_auth L)

  unfoldable pub deep_copy_tls : Ref → Cmd (Memory L) Ref
  unfolding copy_unless_nil
  deep_copy_tls = copy_unless_nil tls_slot (copy_tls L)

  unfoldable pub deep_copy_transport : Ref → Cmd (Memory L) Ref
  unfolding copy_unless_nil
  deep_copy_transport = copy_unless_nil transport_slot (copy_transport L)

  unfoldable pub deep_copy_spec : Ref → Cmd (Memory L) Ref
  unfolding copy_unless_nil
  deep_copy_spec = copy_unless_nil spec_slot (copy_spec L)

  unfoldable pub deep_copy_status : Ref → Cmd (Memory L) Ref
  unfolding copy_unless_nil
  deep_copy_status = copy_unless_nil status_slot (copy_status L)

  unfoldable pub deep_copy_server : Ref → Cmd (Memory L) Ref
  unfolding copy_unless_nil
  deep_copy_server = copy_unless_nil server_slot (copy_server L)

  unfoldable pub deep_copy_list : Ref → Cmd (Memory L) Ref
  unfolding copy_unless_nil
  deep_copy_list = copy_unless_nil server_list_slot (copy_list L)

  -- `if c := in.DeepCopy(); c != nil { return c }; return nil`
  abbrev pub unless_nil : (Ref → Object) → Ref → Option Object
  unless_nil kind none = none
  unless_nil kind (some p) = some (kind (some p))

  unfoldable pub deep_copy_object : Object → Cmd (Memory L) (Option Object)
  unfolding deep_copy_server deep_copy_list
  deep_copy_object (server p) = do c ← deep_copy_server p; pure (unless_nil server c)
  deep_copy_object (server_list p) = do c ← deep_copy_list p; pure (unless_nil server_list c)
