-- ===== src/RefManager/Once.antt =====
-- How often the service is read anew, and what happens while it is being deleted.
use mathlib.Core.Path.{subst}
use frp_provisioner.Prelude.{
  sym, ℕ, ◌+◌, ◌≤◌, suc, String, Bool, List, [], ◌∷◌, ◌++◌, Option, none, some, ◌≡◌, refl, ◌⊎◌,
  arith,
}
use frp_provisioner.Go.{
  GoError, >>=-after, continue, fail, Result, ok, err, panic, Keeps, >>=-Keeps,
}
use frp_provisioner.Kube.{Pod, Machinery, IsLawful, Client, Call, World, perform}
use frp_provisioner.RefManager.Owner.{
  RefManager, check_fresh, run_once, get_owner, owner_kind, read_owner, settle, can_adopt,
  can_adopt_once,
}
use frp_provisioner.RefManager.Defs.{match_object, claim_loop, claim_owned_objects}
use frp_provisioner.RefManager.Updates.{IsAdoption, IsRelease}
use frp_provisioner.RefManager.Induction.{claim_loop-Keeps}
use frp_provisioner.RefManager.Reading.{owner_kind-state, check_fresh-Keeps}

-- The reads of the owner in a log.
abbrev pub owner_reads : List Call → ℕ
owner_reads [] = 0
owner_reads (Call.get_object _ _ ∷ calls) = suc (owner_reads calls)
owner_reads (_ ∷ calls) = owner_reads calls

owner_reads-append :
    (xs : List Call) (c : Call) → owner_reads (xs ++ c ∷ []) ≡ owner_reads xs + owner_reads (c ∷ [])
owner_reads-append [] c = omega arith
owner_reads-append (Call.get_object _ _ ∷ xs) c = omega (arith, owner_reads-append xs c)
owner_reads-append (_ ∷ xs) c = owner_reads-append xs c

-- The reads that `once` still allows.
abbrev pub reads_left : Option (Option GoError) → ℕ
reads_left none = 1
reads_left (some _) = 0

module _ (L : Machinery) (C : Client) (mgr : RefManager L) where
  abbrev Bounded : ℕ → World C → Type 0
  Bounded k w = owner_reads w.calls + reads_left w.once ≤ k

  AtMost : ℕ → World C → Type 0
  AtMost n w = owner_reads w.calls ≤ n

  read-AtMost :
      (n : ℕ) (r : Result String) (w : World C)
      → owner_reads w.calls ≤ n
      → AtMost (suc n) (continue (r, w) fail (read_owner L C mgr)).1
  unfolding AtMost read_owner
  read-AtMost n (ok kind) w h = omega (
    arith,
    owner_reads-append w.calls
        (Call.get_object kind (record { namespace = mgr.owner.namespace; name = mgr.owner.name })),
  )
  read-AtMost n (err e) w h = omega arith
  read-AtMost n (panic _) w h = omega arith

  get_owner-AtMost : (w : World C) → AtMost (suc (owner_reads w.calls)) (get_owner L C mgr w).1
  unfolding get_owner
  get_owner-AtMost w =
      read-AtMost (owner_reads w.calls) (owner_kind L C mgr w).0 (owner_kind L C mgr w).1 (
        subst (λ (u : World C). owner_reads u.calls ≤ owner_reads w.calls)
          (sym (owner_kind-state L C mgr w)) (omega arith))

  can_adopt-AtMost : (w : World C) → AtMost (suc (owner_reads w.calls)) (can_adopt L C mgr w).1
  unfolding can_adopt
  can_adopt-AtMost w =
      >>=-after (AtMost (suc (owner_reads w.calls))) (get_owner L C mgr)
        (check_fresh L C mgr.owner.metadata) w (get_owner-AtMost w)
        (check_fresh-Keeps L C mgr (AtMost _))

  settle-Bounded :
      (k : ℕ) (r : Result (Unit {0})) (w : World C)
      → owner_reads w.calls ≤ k
      → Bounded k (settle L C (r, w)).1
  unfolding settle
  settle-Bounded k (ok _) w h = omega arith
  settle-Bounded k (err _) w h = omega arith
  settle-Bounded k (panic _) w h = omega arith

  run_once-Bounded :
      (k : ℕ) (r : Option (Option GoError)) (w : World C)
      → w.once ≡ r
      → Bounded k w
      → Bounded k (run_once L C mgr r w).1
  unfolding run_once AtMost
  run_once-Bounded k none w e h =
      settle-Bounded k (can_adopt L C mgr w).0 (can_adopt L C mgr w).1
        (ground (arith, can_adopt-AtMost w))
  run_once-Bounded k (some r) w e h = h

  can_adopt_once-Bounded : (k : ℕ) → Keeps (Bounded k) (can_adopt_once L C mgr)
  unfolding can_adopt_once
  can_adopt_once-Bounded k w h = run_once-Bounded k w.once w refl h

-- Over one manager, fresh at the start, the service is read anew at most once, however many orphans
-- there are to adopt and whatever the server answers.
pub claim_owned_objects-reads :
    (L : Machinery) (C : Client)
    → IsLawful L
    → (mgr : RefManager L) (filters : List (Pod → Bool)) (listed : List Pod) (w : World C)
    → w.once ≡ none
    → owner_reads (claim_owned_objects L C mgr listed filters w).1.calls ≤ owner_reads w.calls + 1
unfolding claim_owned_objects
claim_owned_objects-reads L C lawful mgr filters listed w fresh =
    let matches = match_object L mgr filters in
    let k = owner_reads w.calls + 1 in
    let updates : (p : Pod)
        → IsAdoption L C mgr matches listed p ⊎ IsRelease L C mgr matches listed p
        → Keeps {S = World C} (Bounded L C mgr k) (perform (Call.update_pod p) (C.update_pod p)) =
      λ p h u b. omega (arith, owner_reads-append u.calls (Call.update_pod p)) in
    let keeps : Keeps (Bounded L C mgr k) (claim_loop L C mgr matches listed) =
      claim_loop-Keeps L C lawful mgr matches listed (Bounded L C mgr k)
        (λ alive. can_adopt_once-Bounded L C mgr k) updates listed (λ p a. a) in
    let bounded : Bounded L C mgr k (claim_owned_objects L C mgr listed filters w).1 =
      >>=-Keeps (Bounded L C mgr k) (claim_loop L C mgr matches listed) _ keeps (λ r u h. h) w
        (rw fresh (omega arith)) in
    omega arith
