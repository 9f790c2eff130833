-- ===== src/RefManager/Induction.antt =====
-- What all updates and the check before an adoption keep, ClaimOwnedObjects keeps.
use frp_provisioner.Prelude.{
  ℕ, suc, Bool, true, false, not, ◌||◌, List, [], ◌∷◌, ◌++◌, Option, none, some, ◌==◌, ◌≡◌, refl,
  ◌⊎◌, inl, inr, arith, eq_iff, is_some, take, drop, ap,
}
use frp_provisioner.Go.{
  GoError, Result, ok, err, panic, handle, pure, Keeps, handle-Keeps, >>=-Keeps, lift, if-Keeps,
}
use frp_provisioner.Kube.{
  OwnerReference, Pod, Machinery, IsLawful, IsNone, Client, Call, World, perform,
  with_owner_references,
}
use frp_provisioner.RefManager.Owner.{RefManager, can_adopt_once}
use frp_provisioner.RefManager.Defs.{
  owner_index, update_owner, adopt_checked, release_at, claim_by, cannot_set, cannot_update,
  cannot_remove, ignore_not_found, set_owner, adopt, release, claim_controlled, claim_orphan,
  claim_object, add_error, add_claim, claim_loop,
}
use frp_provisioner.RefManager.Updates.{Among, IsAdoption, IsRelease, cut-remove_first}
use frp_provisioner.RefManager.Claiming.{IsOurs, IsAdoptable}

module _ (L : Machinery) (C : Client) (lawful : IsLawful L) (mgr : RefManager L)
    (matches : Pod → Bool) (listed : List Pod) (I : World C → Type 0)
    (checks : IsNone mgr.owner.deletion_timestamp → Keeps I (can_adopt_once L C mgr))
    (updates : (p : Pod)
      → IsAdoption L C mgr matches listed p ⊎ IsRelease L C mgr matches listed p
      → Keeps {S = World C} I (perform (Call.update_pod p) (C.update_pod p))) where
  module _ (o : Pod) (among : Among o listed) where
    update_owner-Keeps :
        (refs : List OwnerReference)
        → IsAdoption L C mgr matches listed (with_owner_references o refs)
        → Keeps I (update_owner L C o refs)
    unfolding update_owner
    update_owner-Keeps refs h =
        let owned = with_owner_references o refs in
        handle-Keeps I (perform (Call.update_pod owned) (C.update_pod owned)) (cannot_update L C o)
          pure (updates owned (inl h)) (λ x w h. h) (λ x w h. h)

    module _ (fits : matches o ≡ true) (orphan : IsAdoptable L C mgr matches o) where
      set_result-Keeps :
          (schema : L.Scheme) (r : Result (List OwnerReference))
          → L.set_controller_reference mgr.owner o schema ≡ r
          → Keeps {S = World C} I (handle (lift r) (cannot_set L C o) (update_owner L C o))
      unfolding cannot_set
      set_result-Keeps schema (ok refs) e w h =
          update_owner-Keeps refs
            (o, refs, among, fits, orphan, lawful.controls mgr.owner o schema refs e, refl) w h
      set_result-Keeps schema (err x) e w h = h
      set_result-Keeps schema (panic x) e w h = h

      set_owner-Keeps : (schema : Option L.Scheme) → Keeps I (set_owner L C mgr o schema)
      unfolding set_owner
      set_owner-Keeps none w h = h
      set_owner-Keeps (some schema) w h = set_result-Keeps schema _ refl w h

      adopt_checked-Keeps : (cannot : Option GoError) → Keeps I (adopt_checked L C mgr o cannot)
      unfolding adopt_checked
      adopt_checked-Keeps none w h = set_owner-Keeps mgr.schema w h
      adopt_checked-Keeps (some e) w h = h

      adopt-Keeps : Keeps I (adopt L C mgr o)
      unfolding adopt
      adopt-Keeps =
          >>=-Keeps I (can_adopt_once L C mgr) (adopt_checked L C mgr o) (checks orphan.1)
            adopt_checked-Keeps

    module _ (misses : matches o ≡ false) (ours : IsOurs L C mgr matches o)
        (alive : IsNone mgr.owner.deletion_timestamp) where
      release_at-Keeps :
          (idx : Option ℕ)
          → owner_index mgr.owner.uid 0 o.owner_references ≡ idx
          → Keeps I (release_at L C mgr o idx)
      unfolding release_at
      release_at-Keeps none e w h = h
      release_at-Keeps (some idx) e w h =
          let refs = o.owner_references in
          let released = with_owner_references o (take idx refs ++ drop (suc idx) refs) in
          handle-Keeps I (perform (Call.update_pod released) (C.update_pod released))
            (cannot_remove L C mgr o) (λ _. pure tt)
            (updates released (
              inr (
                o,
                among,
                misses,
                ours,
                alive,
                ap (with_owner_references o) (cut-remove_first _ refs idx e),
              )))
            (λ x w h. h) (λ x w h. h) w h

      release-Keeps : Keeps I (release L C mgr o)
      unfolding release
      release-Keeps = release_at-Keeps _ refl

    ignore_not_found-Keeps : (e : GoError) → Keeps I (ignore_not_found L C o e)
    unfolding ignore_not_found
    ignore_not_found-Keeps e = if-Keeps I (L.is_not_found e) _ _ (λ c w h. h) (λ c w h. h)

    claim_controlled-Keeps :
        (ref : OwnerReference)
        → L.get_controller_of o.owner_references ≡ some ref
        → Keeps I (claim_controlled L C mgr o matches ref)
    unfolding claim_controlled
    claim_controlled-Keeps ref e =
        if-Keeps I (not (ref.uid == mgr.owner.uid)) _ _ (λ c w h. h)
          λ same.
            if-Keeps I (matches o) _ _ (λ c w h. h)
              λ misses.
                if-Keeps I (is_some mgr.owner.deletion_timestamp) _ _ (λ c w h. h)
                  λ alive.
                    let uid : ref.uid ≡ mgr.owner.uid =
                      ground (arith, eq_iff ref.uid mgr.owner.uid) in
                    handle-Keeps I (release L C mgr o) (ignore_not_found L C o)
                      (λ _. pure (false, o)) (release-Keeps misses (ref, e, uid) (ground arith))
                      ignore_not_found-Keeps (λ x w h. h)

    claim_orphan-Keeps :
        IsNone (L.get_controller_of o.owner_references) → Keeps I (claim_orphan L C mgr o matches)
    unfolding claim_orphan
    claim_orphan-Keeps e =
        if-Keeps I (is_some mgr.owner.deletion_timestamp || not (matches o)) _ _ (λ c w h. h)
          λ both.
            if-Keeps I (is_some o.deletion_timestamp) _ _ (λ c w h. h)
              λ alive.
                handle-Keeps I (adopt L C mgr o) (ignore_not_found L C o)
                  (λ adopted. pure (true, adopted))
                  (adopt-Keeps (ground arith) (e, ground arith, ground arith))
                  ignore_not_found-Keeps (λ x w h. h)

    claim_by-Keeps :
        (r : Option OwnerReference)
        → L.get_controller_of o.owner_references ≡ r
        → Keeps I (claim_by L C mgr o matches r)
    unfolding claim_by
    claim_by-Keeps none e w h = claim_orphan-Keeps e w h
    claim_by-Keeps (some ref) e w h = claim_controlled-Keeps ref e w h

    claim_object-Keeps : Keeps I (claim_object L C mgr o matches)
    unfolding claim_object
    claim_object-Keeps = claim_by-Keeps _ refl

  pub claim_loop-Keeps :
      (os : List Pod)
      → ((o : Pod) → Among o os → Among o listed)
      → Keeps I (claim_loop L C mgr matches os)
  unfolding claim_loop
  claim_loop-Keeps [] sub w h = h
  claim_loop-Keeps (o ∷ os) sub w h =
      let rest = claim_loop L C mgr matches os in
      let keeps = claim_loop-Keeps os (λ p a. sub p (inr a)) in
      handle-Keeps I (claim_object L C mgr o matches) (add_error L C rest) (add_claim L C rest)
        (claim_object-Keeps o (sub o (inl refl))) (λ e. >>=-Keeps I rest _ keeps (λ r w h. h))
        (λ r. >>=-Keeps I rest _ keeps (λ r w h. h)) w h
