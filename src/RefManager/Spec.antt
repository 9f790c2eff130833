-- ===== src/RefManager/Spec.antt =====
-- What ClaimOwnedObjects is to do with each pod, apart from how: no errors, no order of checks and no
-- indexes of slices.
use frp_provisioner.Prelude.{
  String, Bool, true, ◌&&◌, any, List, [], ◌∷◌, ◌++◌, Option, none, some, ◌==◌, is_none, ◌≡◌,
  if◌then◌else◌,
}
use frp_provisioner.Go.{ok}
use frp_provisioner.Kube.{
  ObjectKey, OwnerReference, Pod, with_owner_references, client_object, Machinery, IsNone, Client,
  Call,
}
use frp_provisioner.RefManager.Owner.{RefManager}
use frp_provisioner.RefManager.Updates.{remove_first}

-- A pod is left alone, or kept by the service that controls it, or released, or adopted.
pub data Fate : Type 0 where
  left : Fate
  kept : Fate
  released : Fate
  adopted : Fate

module _ (L : Machinery) (mgr : RefManager L) (matches : Pod → Bool) where
  abbrev pub fate_by : Pod → Option OwnerReference → Fate
  fate_by o (some ref) =
      if ref.uid == mgr.owner.uid then (if matches o then kept else released) else left
  fate_by o none = if matches o && is_none o.deletion_timestamp then adopted else left

  abbrev pub fate : Pod → Fate
  fate o = fate_by o (L.get_controller_of o.owner_references)

-- Every request is granted, and the service is alive: what the reference manager meets when nothing
-- fails. `kind` is that of the owner, and `refs` are the references of an adopted pod.
pub record Grants (L : Machinery) (C : Client) (mgr : RefManager L) : Type 0 where
  pub alive : IsNone mgr.owner.deletion_timestamp
  pub schema : L.Scheme
  pub has_schema : mgr.schema ≡ some schema
  pub object_kind : String
  pub object_kinds : List String
  pub knows_kinds : L.object_kinds schema ≡ ok (object_kind ∷ object_kinds)
  pub kind : String
  pub makes : L.scheme_new schema object_kind ≡ ok (client_object kind)
  pub refs : Pod → List OwnerReference
  pub sets :
      (o : Pod)
      → IsNone (L.get_controller_of o.owner_references)
      → L.set_controller_reference mgr.owner o schema ≡ ok (refs o)
  pub updates : (p : Pod) (s : C.State) → (t : C.State) × (C.update_pod p s ≡ (ok p, t))
  pub reads :
      (s : C.State)
      → (t : C.State) × (C.get_object kind
            (record { namespace = mgr.owner.namespace; name = mgr.owner.name })
            s
          ≡ (ok mgr.owner.metadata, t))

module _ (L : Machinery) (C : Client) (mgr : RefManager L) (G : Grants L C mgr) where
  abbrev pub owner_key : ObjectKey
  owner_key = record { namespace = mgr.owner.namespace; name = mgr.owner.name }

  -- The pod that is returned.
  abbrev pub result_of : Pod → Fate → Option Pod
  result_of o left = none
  result_of o kept = some o
  result_of o released = none
  result_of o adopted = some (with_owner_references o (G.refs o))

  -- Whether the owner has been read, after this pod.
  abbrev pub read_after : Bool → Fate → Bool
  read_after read adopted = true
  read_after read _ = read

  -- The requests for it: an adoption reads the owner, unless one before it did.
  abbrev pub requests_of : Bool → Pod → Fate → List Call
  requests_of read o left = []
  requests_of read o kept = []
  requests_of read o released =
      if any (λ r. r.uid == mgr.owner.uid) o.owner_references
      then Call.update_pod (with_owner_references o (remove_first mgr.owner.uid o.owner_references))
        ∷ []
      else []
  requests_of read o adopted =
      (if read then [] else Call.get_object G.kind owner_key ∷ [])
      ++ Call.update_pod (with_owner_references o (G.refs o)) ∷ []

  abbrev pub add_result : Option Pod → List Pod → List Pod
  add_result none ps = ps
  add_result (some p) ps = p ∷ ps

  abbrev pub results : (Pod → Bool) → List Pod → List Pod
  results matches [] = []
  results matches (o ∷ os) = add_result (result_of o (fate L mgr matches o)) (results matches os)

  abbrev pub requests : (Pod → Bool) → Bool → List Pod → List Call
  requests matches read [] = []
  requests matches read (o ∷ os) =
      let f = fate L mgr matches o in
      requests_of read o f ++ requests matches (read_after read f) os
