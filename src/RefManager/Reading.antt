-- ===== src/RefManager/Reading.antt =====
-- Reading the owner: what happens before the request changes nothing.
use frp_provisioner.Prelude.{String, List, [], ◌∷◌, Option, none, some, ◌≡◌, refl}
use frp_provisioner.Go.{GoError, Result, ok, err, panic, if-Keeps, Keeps, >>=-Keeps, lift}
use frp_provisioner.Kube.{
  ObjectMeta, NewObject, client_object, plain_object, Machinery, Client, World,
}
use frp_provisioner.RefManager.Owner.{
  RefManager, non_nil, first_kind, as_client_object, owner_kind, read_owner, get_owner, still_there,
  check_fresh, can_adopt, settle, run_once, can_adopt_once,
}

module _ {S : Type 0} (I : S → Type 0) where
  non_nil-Keeps : {A : Type 0} (s : Option A) → Keeps I (non_nil s)
  unfolding non_nil
  non_nil-Keeps none w h = h
  non_nil-Keeps (some s) w h = h

  first_kind-Keeps : (kinds : List String) → Keeps I (first_kind kinds)
  unfolding first_kind
  first_kind-Keeps [] w h = h
  first_kind-Keeps (kind ∷ _) w h = h

  as_client_object-Keeps : (m : ObjectMeta) (o : NewObject) → Keeps I (as_client_object m o)
  unfolding as_client_object
  as_client_object-Keeps m (client_object kind) w h = h
  as_client_object-Keeps m (plain_object kind) w h = h

module _ (L : Machinery) (C : Client) (mgr : RefManager L) (I : World C → Type 0) where
  owner_kind-Keeps : Keeps I (owner_kind L C mgr)
  unfolding owner_kind
  owner_kind-Keeps = >>=-Keeps I (non_nil mgr.schema) _ (non_nil-Keeps I mgr.schema) λ schema.
      >>=-Keeps I (lift (L.object_kinds schema)) _ (λ w h. h)
        λ kinds. >>=-Keeps I (first_kind kinds) _ (first_kind-Keeps I kinds) λ kind.
          >>=-Keeps I (lift (L.scheme_new schema kind)) _ (λ w h. h)
            (as_client_object-Keeps I mgr.owner.metadata)

  pub get_owner-Keeps :
      ((kind : String) → Keeps I (read_owner L C mgr kind)) → Keeps I (get_owner L C mgr)
  unfolding get_owner
  get_owner-Keeps reads =
      >>=-Keeps I (owner_kind L C mgr) (read_owner L C mgr) owner_kind-Keeps reads

module _ (L : Machinery) (C : Client) (mgr : RefManager L) (I : World C → Type 0) where
  still_there-Keeps : (t : Option String) → Keeps I (still_there L C mgr.owner.metadata t)
  unfolding still_there
  still_there-Keeps none w h = h
  still_there-Keeps (some t) w h = h

  pub check_fresh-Keeps : (fresh : ObjectMeta) → Keeps I (check_fresh L C mgr.owner.metadata fresh)
  unfolding check_fresh
  check_fresh-Keeps fresh =
      if-Keeps I _ _ _ (λ c w h. h) (λ c. still_there-Keeps fresh.deletion_timestamp)

module _ (L : Machinery) (C : Client) (mgr : RefManager L) (I : World C → Type 0)
    (reads : (kind : String) → Keeps I (read_owner L C mgr kind))
    (sets : (r : Option (Option GoError)) (w : World C) → I w → I (record w { once = r })) where
  can_adopt-Keeps : Keeps I (can_adopt L C mgr)
  unfolding can_adopt
  can_adopt-Keeps =
      >>=-Keeps I (get_owner L C mgr) (check_fresh L C mgr.owner.metadata)
        (get_owner-Keeps L C mgr I reads) (check_fresh-Keeps L C mgr I)

  settle-Keeps : (r : Result (Unit {0})) (w : World C) → I w → I (settle L C (r, w)).1
  unfolding settle
  settle-Keeps (ok _) w h = sets (some none) w h
  settle-Keeps (err e) w h = sets (some (some e)) w h
  settle-Keeps (panic _) w h = sets (some none) w h

  run_once-Keeps : (r : Option (Option GoError)) → Keeps I (run_once L C mgr r)
  unfolding run_once
  run_once-Keeps none w h =
      settle-Keeps (can_adopt L C mgr w).0 (can_adopt L C mgr w).1 (can_adopt-Keeps w h)
  run_once-Keeps (some r) w h = h

  pub can_adopt_once-Keeps : Keeps I (can_adopt_once L C mgr)
  unfolding can_adopt_once
  can_adopt_once-Keeps w h = run_once-Keeps w.once w h

-- Before the request the world is the one that was given.
pub owner_kind-state :
    (L : Machinery) (C : Client) (mgr : RefManager L) (w : World C) → (owner_kind L C mgr w).1 ≡ w
owner_kind-state L C mgr w = owner_kind-Keeps L C mgr (λ u. u ≡ w) w refl
