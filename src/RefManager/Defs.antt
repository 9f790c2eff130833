-- ===== src/RefManager/Defs.antt =====
-- pkg/utils/controller/refmanager.go: which pods a service owns, by adopting orphans and releasing
-- pods that its selector no longer matches.
use frp_provisioner.Prelude.{
  ℕ, suc, String, ◌<>◌, Bool, true, false, not, ◌&&◌, ◌||◌, List, [], ◌∷◌, ◌++◌, Option, none, some,
  ◌==◌, is_some, take, drop, map, if◌then◌else◌,
}
use frp_provisioner.Go.{GoError, errorf_v, M, pure, fail, lift, handle, ◌>>=◌}
use frp_provisioner.Kube.{
  OwnerReference, ObjectMeta, Pod, with_owner_references, Machinery, Client, Call, World, perform,
}
use frp_provisioner.RefManager.Owner.{RefManager, can_adopt_once}

-- "namespace/name (uid)"
abbrev describe : ObjectMeta → String
describe m = m.namespace <> "/" <> m.name <> " (" <> m.uid <> ")"

-- The loop of `release`, from index i: the first reference with this uid.
unfoldable pub owner_index : String → ℕ → List OwnerReference → Option ℕ
owner_index uid i [] = none
owner_index uid i (ref ∷ refs) = if ref.uid == uid then some i else owner_index uid (suc i) refs

unfoldable pub passes : List (Pod → Bool) → Pod → Bool
passes [] obj = true
passes (filter ∷ filters) obj = filter obj && passes filters obj

-- `match` of ClaimOwnedObjects
unfoldable pub match_object : (L : Machinery) → RefManager L → List (Pod → Bool) → Pod → Bool
unfolding passes
match_object L mgr filters obj =
    L.selector_matches mgr.selector (elim obj.labels [ none ↦ [] | some labels ↦ labels ])
    && passes filters obj

module _ (L : Machinery) (C : Client) where
  unfoldable pub cannot_set : Pod → GoError → M (World C) Pod
  cannot_set obj e =
      fail (errorf_v ("can't set Object " <> describe obj.metadata <> " owner reference: ") e)

  unfoldable pub cannot_update : Pod → GoError → M (World C) Pod
  cannot_update obj e =
      fail (errorf_v ("can't update Object " <> describe obj.metadata <> " owner reference: ") e)

  -- The object is changed in place, and so it is by the answer to `Update`.
  unfoldable pub update_owner : Pod → List OwnerReference → M (World C) Pod
  unfolding cannot_update
  update_owner obj refs =
      let owned = with_owner_references obj refs in
      handle (perform (Call.update_pod owned) (C.update_pod owned)) (cannot_update obj) pure

  unfoldable pub set_owner : RefManager L → Pod → Option L.Scheme → M (World C) Pod
  unfolding cannot_set update_owner
  set_owner mgr obj none = pure obj
  set_owner mgr obj (some schema) =
      handle (lift (L.set_controller_reference mgr.owner obj schema)) (cannot_set obj)
        (update_owner obj)

  -- `adopt` behind the check and its error.
  unfoldable pub adopt_checked : RefManager L → Pod → Option GoError → M (World C) Pod
  unfolding set_owner
  adopt_checked mgr obj (some e) =
      fail (errorf_v ("can't adopt Object " <> describe obj.metadata <> ": ") e)
  adopt_checked mgr obj none = set_owner mgr obj mgr.schema

  unfoldable pub adopt : RefManager L → Pod → M (World C) Pod
  unfolding adopt_checked
  adopt mgr obj = can_adopt_once L C mgr >>= adopt_checked mgr obj

  unfoldable pub cannot_remove : RefManager L → Pod → GoError → M (World C) (Unit {0})
  cannot_remove mgr obj e = fail (
      errorf_v
        ("can't remove Pod "
          <> describe obj.metadata
          <> " owner reference "
          <> obj.namespace
          <> "/"
          <> obj.name
          <> " ("
          <> mgr.owner.uid
          <> "): ")
        e)

  -- `release` behind its loop; no index stands for -1.
  unfoldable pub release_at : RefManager L → Pod → Option ℕ → M (World C) (Unit {0})
  unfolding cannot_remove
  release_at mgr obj none = pure tt
  release_at mgr obj (some idx) =
      let refs = obj.owner_references in
      let released = with_owner_references obj (take idx refs ++ drop (suc idx) refs) in
      handle (perform (Call.update_pod released) (C.update_pod released)) (cannot_remove mgr obj)
        λ _. pure tt

  unfoldable pub release : RefManager L → Pod → M (World C) (Unit {0})
  unfolding release_at owner_index
  release mgr obj = release_at mgr obj (owner_index mgr.owner.uid 0 obj.owner_references)

  -- The end of both branches of `claimObject`: a missing object is no error.
  unfoldable pub ignore_not_found : Pod → GoError → M (World C) (Bool × Pod)
  ignore_not_found obj e = if L.is_not_found e then pure (false, obj) else fail e

  -- The object has a controller.
  unfoldable pub claim_controlled :
      RefManager L → Pod → (Pod → Bool) → OwnerReference → M (World C) (Bool × Pod)
  unfolding ignore_not_found
  claim_controlled mgr obj matches ref =
      if not (ref.uid == mgr.owner.uid)
      then pure (false, obj)
      else if matches obj
      then pure (true, obj)
      else if is_some mgr.owner.deletion_timestamp
      then pure (false, obj)
      else handle (release mgr obj) (ignore_not_found obj) (λ _. pure (false, obj))

  unfoldable pub claim_orphan : RefManager L → Pod → (Pod → Bool) → M (World C) (Bool × Pod)
  unfolding ignore_not_found
  claim_orphan mgr obj matches =
      if is_some mgr.owner.deletion_timestamp || not (matches obj)
      then pure (false, obj)
      else if is_some obj.deletion_timestamp
      then pure (false, obj)
      else handle (adopt mgr obj) (ignore_not_found obj) (λ adopted. pure (true, adopted))

  unfoldable pub claim_by :
      RefManager L → Pod → (Pod → Bool) → Option OwnerReference → M (World C) (Bool × Pod)
  unfolding claim_controlled claim_orphan
  claim_by mgr obj matches (some ref) = claim_controlled mgr obj matches ref
  claim_by mgr obj matches none = claim_orphan mgr obj matches

  -- Whether the object is claimed, and the object as the call leaves it.
  unfoldable pub claim_object : RefManager L → Pod → (Pod → Bool) → M (World C) (Bool × Pod)
  unfolding claim_by
  claim_object mgr obj matches = claim_by mgr obj matches (L.get_controller_of obj.owner_references)

  -- A round of the loop of ClaimOwnedObjects in front of the rest: with an error, and without.
  unfoldable pub add_error :
      M (World C) (List Pod × List GoError) → GoError → M (World C) (List Pod × List GoError)
  add_error rest e = rest >>= λ (claimed, errors). pure (claimed, e ∷ errors)

  unfoldable pub add_claim :
      M (World C) (List Pod × List GoError) → Bool × Pod → M (World C) (List Pod × List GoError)
  add_claim rest (mine, seen) =
      rest >>= λ (claimed, errors). pure ((if mine then seen ∷ claimed else claimed), errors)

  -- The loop of ClaimOwnedObjects, with the objects and the errors that it gathers.
  unfoldable pub claim_loop :
      RefManager L → (Pod → Bool) → List Pod → M (World C) (List Pod × List GoError)
  unfolding add_error add_claim
  claim_loop mgr matches [] = pure ([], [])
  claim_loop mgr matches (obj ∷ objs) =
      let rest = claim_loop mgr matches objs in
      handle (claim_object mgr obj matches) (add_error rest) (add_claim rest)

  unfoldable pub claim_owned_objects :
      RefManager L → List Pod → List (Pod → Bool) → M (World C) (List Pod × Option GoError)
  unfolding claim_loop match_object
  claim_owned_objects mgr objs filters = do
    (claimed, errors) ← claim_loop mgr (match_object L mgr filters) objs
    pure (claimed, L.new_aggregate (map some errors))
