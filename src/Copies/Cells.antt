-- ===== src/Copies/Cells.antt =====
-- The kinds of cells, each with the test for it.
use frp_provisioner.Prelude.{String, Bool, List, Option, none, some, refl}
use frp_provisioner.Go.{StringMap}
use frp_provisioner.Kube.{SecretReference, Condition}
use frp_provisioner.Api.{FrpServerTransportQuic, ServiceReference}
use frp_provisioner.Copies.Stored.{
  StoredOidc, StoredAuth, StoredTls, StoredTransport, StoredSpec, StoredStatus, StoredServer,
  StoredList, Cell,
}
use frp_provisioner.Copies.Heap.{Slot}

module _ {M N : Type 0} where
  abbrev flag_of : Cell M N → Option (Bool)
  flag_of (Cell.flag a) = some a
  flag_of _ = none

  abbrev pub flag_slot : Slot (Cell M N) (Bool)
  flag_slot = record { store = Cell.flag; load = flag_of; same = λ a. refl }

  abbrev secret_of : Cell M N → Option (SecretReference)
  secret_of (Cell.secret a) = some a
  secret_of _ = none

  abbrev pub secret_slot : Slot (Cell M N) (SecretReference)
  secret_slot = record { store = Cell.secret; load = secret_of; same = λ a. refl }

  abbrev texts_of : Cell M N → Option (List String)
  texts_of (Cell.texts a) = some a
  texts_of _ = none

  abbrev pub texts_slot : Slot (Cell M N) (List String)
  texts_slot = record { store = Cell.texts; load = texts_of; same = λ a. refl }

  abbrev entries_of : Cell M N → Option (StringMap)
  entries_of (Cell.entries a) = some a
  entries_of _ = none

  abbrev pub entries_slot : Slot (Cell M N) (StringMap)
  entries_slot = record { store = Cell.entries; load = entries_of; same = λ a. refl }

  abbrev conditions_of : Cell M N → Option (List Condition)
  conditions_of (Cell.conditions a) = some a
  conditions_of _ = none

  abbrev pub conditions_slot : Slot (Cell M N) (List Condition)
  conditions_slot = record { store = Cell.conditions; load = conditions_of; same = λ a. refl }

  abbrev references_of : Cell M N → Option (List ServiceReference)
  references_of (Cell.references a) = some a
  references_of _ = none

  abbrev pub references_slot : Slot (Cell M N) (List ServiceReference)
  references_slot = record { store = Cell.references; load = references_of; same = λ a. refl }

  abbrev servers_of : Cell M N → Option (List (StoredServer M))
  servers_of (Cell.servers a) = some a
  servers_of _ = none

  abbrev pub servers_slot : Slot (Cell M N) (List (StoredServer M))
  servers_slot = record { store = Cell.servers; load = servers_of; same = λ a. refl }

  abbrev reference_of : Cell M N → Option (ServiceReference)
  reference_of (Cell.reference a) = some a
  reference_of _ = none

  abbrev pub reference_slot : Slot (Cell M N) (ServiceReference)
  reference_slot = record { store = Cell.reference; load = reference_of; same = λ a. refl }

  abbrev oidc_of : Cell M N → Option (StoredOidc)
  oidc_of (Cell.oidc a) = some a
  oidc_of _ = none

  abbrev pub oidc_slot : Slot (Cell M N) (StoredOidc)
  oidc_slot = record { store = Cell.oidc; load = oidc_of; same = λ a. refl }

  abbrev auth_of : Cell M N → Option (StoredAuth)
  auth_of (Cell.auth a) = some a
  auth_of _ = none

  abbrev pub auth_slot : Slot (Cell M N) (StoredAuth)
  auth_slot = record { store = Cell.auth; load = auth_of; same = λ a. refl }

  abbrev quic_of : Cell M N → Option (FrpServerTransportQuic)
  quic_of (Cell.quic a) = some a
  quic_of _ = none

  abbrev pub quic_slot : Slot (Cell M N) (FrpServerTransportQuic)
  quic_slot = record { store = Cell.quic; load = quic_of; same = λ a. refl }

  abbrev tls_of : Cell M N → Option (StoredTls)
  tls_of (Cell.tls a) = some a
  tls_of _ = none

  abbrev pub tls_slot : Slot (Cell M N) (StoredTls)
  tls_slot = record { store = Cell.tls; load = tls_of; same = λ a. refl }

  abbrev transport_of : Cell M N → Option (StoredTransport)
  transport_of (Cell.transport a) = some a
  transport_of _ = none

  abbrev pub transport_slot : Slot (Cell M N) (StoredTransport)
  transport_slot = record { store = Cell.transport; load = transport_of; same = λ a. refl }

  abbrev spec_of : Cell M N → Option (StoredSpec)
  spec_of (Cell.spec a) = some a
  spec_of _ = none

  abbrev pub spec_slot : Slot (Cell M N) (StoredSpec)
  spec_slot = record { store = Cell.spec; load = spec_of; same = λ a. refl }

  abbrev status_of : Cell M N → Option (StoredStatus)
  status_of (Cell.status a) = some a
  status_of _ = none

  abbrev pub status_slot : Slot (Cell M N) (StoredStatus)
  status_slot = record { store = Cell.status; load = status_of; same = λ a. refl }

  abbrev server_of : Cell M N → Option (StoredServer M)
  server_of (Cell.server a) = some a
  server_of _ = none

  abbrev pub server_slot : Slot (Cell M N) (StoredServer M)
  server_slot = record { store = Cell.server; load = server_of; same = λ a. refl }

  abbrev server_list_of : Cell M N → Option (StoredList N)
  server_list_of (Cell.server_list a) = some a
  server_list_of _ = none

  abbrev pub server_list_slot : Slot (Cell M N) (StoredList N)
  server_list_slot = record { store = Cell.server_list; load = server_list_of; same = λ a. refl }
