-- ===== src/RefManager/Missing.antt =====
-- What becomes of the error when a pod is gone by the time that it is adopted or released.
use frp_provisioner.Prelude.{
  take, drop, suc, ◌++◌, ℕ, String, Bool, true, false, List, Option, none, some, ◌≡◌, sym, arith,
  ◌∙◌,
}
use frp_provisioner.Go.{
  handle-Returns, pure, fail, lift, continue, GoError, Result, ok, err, panic, text,
}
use frp_provisioner.Kube.{
  with_owner_references, OwnerReference, Pod, Machinery, IsLawful, IsNone, Client, Call, World,
  perform,
}
use frp_provisioner.RefManager.Owner.{RefManager, can_adopt_once, run_once, settle, can_adopt}
use frp_provisioner.RefManager.Defs.{
  claim_object, claim_by, claim_orphan, adopt, adopt_checked, set_owner, update_owner, cannot_set,
  cannot_update, cannot_remove, release, release_at, ignore_not_found, owner_index,
}

module _ (L : Machinery) (C : Client) (lawful : IsLawful L) (mgr : RefManager L) where
  -- Not an error that is ignored.
  abbrev Visible : {A : Type 0} → Result A → Type 0
  Visible (err e) = L.is_not_found e ≡ false
  Visible _ = Unit {0}

  text-Visible : (m : String) → L.is_not_found (text m) ≡ false
  text-Visible = lawful.is_not_found-text

  update_owner-Visible :
      (o : Pod) (refs : List OwnerReference) (w : World C) → Visible (update_owner L C o refs w).0
  unfolding update_owner cannot_update
  update_owner-Visible o refs =
      let owned = with_owner_references o refs in
      handle-Returns Visible (perform (Call.update_pod owned) (C.update_pod owned))
        (cannot_update L C o) pure (λ e u. text-Visible _) (λ a u. tt) (λ m. tt)

  set_owner-Visible :
      (o : Pod) (schema : Option L.Scheme) (w : World C) → Visible (set_owner L C mgr o schema w).0
  unfolding set_owner cannot_set
  set_owner-Visible o none w = tt
  set_owner-Visible o (some schema) w =
      handle-Returns Visible (lift (L.set_controller_reference mgr.owner o schema))
        (cannot_set L C o) (update_owner L C o) (λ e u. text-Visible _)
        (λ refs u. update_owner-Visible o refs u) (λ m. tt) w

  adopt_checked-Visible :
      (o : Pod) (cannot : Option GoError) (w : World C)
      → Visible (adopt_checked L C mgr o cannot w).0
  unfolding adopt_checked
  adopt_checked-Visible o none w = set_owner-Visible o mgr.schema w
  adopt_checked-Visible o (some e) w = text-Visible _

  -- The check itself never fails: its error is a value.
  abbrev NoError : {A : Type 0} → Result A → Type 0
  NoError (err e) = ⊥
  NoError _ = Unit {0}

  settle-NoError : (r : Result (Unit {0})) (w : World C) → NoError (settle L C (r, w)).0
  unfolding settle
  settle-NoError (ok _) w = tt
  settle-NoError (err _) w = tt
  settle-NoError (panic _) w = tt

  run_once-NoError : (r : Option (Option GoError)) (w : World C) → NoError (run_once L C mgr r w).0
  unfolding run_once
  run_once-NoError none w = settle-NoError (can_adopt L C mgr w).0 (can_adopt L C mgr w).1
  run_once-NoError (some r) w = tt

  can_adopt_once-NoError : (w : World C) → NoError (can_adopt_once L C mgr w).0
  unfolding can_adopt_once
  can_adopt_once-NoError w = run_once-NoError w.once w

  after_check-Visible :
      (o : Pod) (r : Result (Option GoError)) (w : World C)
      → NoError r
      → Visible (continue (r, w) fail (adopt_checked L C mgr o)).0
  after_check-Visible o (ok cannot) w h = adopt_checked-Visible o cannot w
  after_check-Visible o (err e) w h = absurd h
  after_check-Visible o (panic p) w h = tt

  pub adopt-Visible : (o : Pod) (w : World C) → Visible (adopt L C mgr o w).0
  unfolding adopt
  adopt-Visible o w =
      after_check-Visible o (can_adopt_once L C mgr w).0 (can_adopt_once L C mgr w).1
        (can_adopt_once-NoError w)

  release_at-Visible :
      (o : Pod) (idx : Option ℕ) (w : World C) → Visible (release_at L C mgr o idx w).0
  unfolding release_at cannot_remove
  release_at-Visible o none w = tt
  release_at-Visible o (some idx) w =
      let refs = o.owner_references in
      let released = with_owner_references o (take idx refs ++ drop (suc idx) refs) in
      handle-Returns Visible (perform (Call.update_pod released) (C.update_pod released))
        (cannot_remove L C mgr o) (λ _. pure tt) (λ e u. text-Visible _) (λ a u. tt) (λ m. tt) w

  pub release-Visible : (o : Pod) (w : World C) → Visible (release L C mgr o w).0
  unfolding release
  release-Visible o w = release_at-Visible o (owner_index mgr.owner.uid 0 o.owner_references) w

  not_ignored :
      (o : Pod) (r : Result Pod) (w : World C) {mine : Bool} {seen : Pod} {w' : World C}
      → Visible r
      → continue (r, w) (ignore_not_found L C o) (λ adopted. pure (true, adopted))
        ≡ (ok (mine, seen), w')
      → mine ≡ true
  unfolding ignore_not_found
  not_ignored o (ok a) w v h = ground arith
  not_ignored o (err e) w v h = ground arith
  not_ignored o (panic p) w v h = ground arith

-- An orphan that the service may adopt is never passed over in silence: if claimObject returns no
-- error for it then it has claimed it. In particular an adoption that fails since the pod is gone is
-- an error, though the code means to ignore it: `adopt` hides the reason behind `%v`.
pub claim_object-adoptable :
    (L : Machinery) (C : Client)
    → IsLawful L
    → (mgr : RefManager L) (matches : Pod → Bool) (o seen : Pod) (w w' : World C) (mine : Bool)
    → IsNone (L.get_controller_of o.owner_references)
    → IsNone mgr.owner.deletion_timestamp
    → IsNone o.deletion_timestamp
    → matches o ≡ true
    → claim_object L C mgr o matches w ≡ (ok (mine, seen), w')
    → mine ≡ true
unfolding claim_object claim_by claim_orphan
claim_object-adoptable L C lawful mgr matches o seen w w' mine orphan alive live fits h =
    let step : claim_object L C mgr o matches w
        ≡ continue (adopt L C mgr o w) (ignore_not_found L C o) (λ adopted. pure (true, adopted)) =
      ground arith in
    not_ignored L C lawful mgr o (adopt L C mgr o w).0 (adopt L C mgr o w).1
      (adopt-Visible L C lawful mgr o w) (sym step ∙ h)
