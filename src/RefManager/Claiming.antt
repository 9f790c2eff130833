-- ===== src/RefManager/Claiming.antt =====
-- What ClaimOwnedObjects returns, and what it leaves alone.
use mathlib.Core.Path.{subst}
use frp_provisioner.Prelude.{
  map, Option, Bool, true, false, sym, ◌∙◌, List, [], ◌∷◌, refl, if◌then◌else◌, some, ◌==◌, ◌≡◌,
  ◌⊎◌, inl, inr, arith, eq_iff, Bool-cases, Option-cases,
}
use frp_provisioner.Go.{>>=-eq-ok, GoError, M, pure, ok, handle-eq-ok, >>=-eq-ok}
use frp_provisioner.Kube.{OwnerReference, Pod, Machinery, ControlledBy, IsNone, Client, World}
use frp_provisioner.RefManager.Owner.{RefManager}
use frp_provisioner.RefManager.Defs.{
  claim_controlled, claim_orphan, claim_object, add_error, add_claim, claim_loop,
  claim_owned_objects, match_object,
}

module _ (L : Machinery) (C : Client) (mgr : RefManager L) (matches : Pod → Bool) where
  abbrev pub IsOurs : Pod → Type 0
  IsOurs o = ControlledBy L mgr.owner.uid o.owner_references

  -- An orphan, neither it nor the owner being deleted.
  abbrev pub IsAdoptable : Pod → Type 0
  IsAdoptable o =
      IsNone (L.get_controller_of o.owner_references)
      × IsNone mgr.owner.deletion_timestamp
      × IsNone o.deletion_timestamp

  -- `o` was listed and `seen` is returned for it.
  abbrev pub Claims : Pod → Pod → Type 0
  Claims o seen = (matches o ≡ true) × ((IsOurs o × (seen ≡ o)) ⊎ IsAdoptable o)

  claim_controlled-Claims :
      (o : Pod) (ref : OwnerReference) (w : World C) {seen : Pod} {w' : World C}
      → L.get_controller_of o.owner_references ≡ some ref
      → claim_controlled L C mgr o matches ref w ≡ (ok (true, seen), w')
      → Claims o seen
  unfolding claim_controlled
  claim_controlled-Claims o ref w {seen} e h = elim (Bool-cases (ref.uid == mgr.owner.uid)) [
    | inl same ↦ elim (Bool-cases (matches o)) [
      | inl fits ↦
          let p : seen ≡ o = ground arith in
          (fits, inl ((ref, e, (eq_iff ref.uid mgr.owner.uid).0 same), p))
      | inr misses ↦ absurd (ground arith)
    ]
    | inr differs ↦ absurd (ground arith)
  ]

  claim_orphan-Claims :
      (o : Pod) (w : World C) {seen : Pod} {w' : World C}
      → IsNone (L.get_controller_of o.owner_references)
      → claim_orphan L C mgr o matches w ≡ (ok (true, seen), w')
      → Claims o seen
  unfolding claim_orphan
  claim_orphan-Claims o w e h = ground arith

  pub claim_object-Claims :
      (o : Pod) (w : World C) {seen : Pod} {w' : World C}
      → claim_object L C mgr o matches w ≡ (ok (true, seen), w')
      → Claims o seen
  unfolding claim_object
  claim_object-Claims o w h = elim (Option-cases (L.get_controller_of o.owner_references)) [
    | inl orphan ↦ claim_orphan-Claims o w orphan (rw (orphan, claim_object) at h)
    | inr (ref, e) ↦ claim_controlled-Claims o ref w e (rw (e, claim_object) at h)
  ]

  -- The returned list, against the listed one: each listed pod is passed over, or claimed in place.
  pub data ClaimedFrom : List Pod → List Pod → Type 0 where
    done : ClaimedFrom [] []
    skip : {o : Pod} {os ps : List Pod} → ClaimedFrom os ps → ClaimedFrom (o ∷ os) ps
    claim :
        {o p : Pod} {os ps : List Pod}
        → Claims o p
        → ClaimedFrom os ps
        → ClaimedFrom (o ∷ os) (p ∷ ps)

  extend :
      (o : Pod) (os : List Pod) (mine : Bool) (seen : Pod) (claimed : List Pod)
      → (mine ≡ true → Claims o seen)
      → ClaimedFrom os claimed
      → ClaimedFrom (o ∷ os) (if mine then seen ∷ claimed else claimed)
  extend o os true seen claimed h t = claim (h refl) t
  extend o os false seen claimed h t = skip t

  abbrev Loop : Type 0
  Loop = M (World C) (List Pod × List GoError)

  add_error-eq-ok :
      (rest : Loop) (e : GoError) (u t : World C) {ps : List Pod} {errors : List GoError}
      → add_error L C rest e u ≡ (ok (ps, errors), t)
      → (es : List GoError) × (rest u ≡ (ok (ps, es), t)) × (errors ≡ e ∷ es)
  unfolding add_error
  add_error-eq-ok rest e u t h = ground arith

  add_claim-eq-ok :
      (rest : Loop) (r : Bool × Pod) (u t : World C) {ps : List Pod} {errors : List GoError}
      → add_claim L C rest r u ≡ (ok (ps, errors), t)
      → (qs : List Pod) × (rest u ≡ (ok (qs, errors), t)) × (ps ≡ (if r.0 then r.1 ∷ qs else qs))
  unfolding add_claim
  add_claim-eq-ok rest (mine, seen) u t h =
      let next = λ (r : List Pod × List GoError).
        pure {S = World C} ((if mine then seen ∷ r.0 else r.0), r.1) in
      let ((qs, es), v, p, k) = >>=-eq-ok rest next u h in (qs, ground arith, ground arith)

  pub claim_loop-ClaimedFrom :
      (os : List Pod) (w : World C) {ps : List Pod} {errors : List GoError} {w' : World C}
      → claim_loop L C mgr matches os w ≡ (ok (ps, errors), w')
      → ClaimedFrom os ps
  unfolding claim_loop
  claim_loop-ClaimedFrom [] w {ps} h =
      let p : [] ≡ ps = ground arith in subst (ClaimedFrom []) p done
  claim_loop-ClaimedFrom (o ∷ os) w h =
      let rest : Loop = claim_loop L C mgr matches os in
      elim (handle-eq-ok (claim_object L C mgr o matches) (add_error L C rest) (add_claim L C rest)
        w h) [
          | inl (r, u, e, k) ↦
              let (qs, p, q) = add_claim-eq-ok rest r u _ k in
              subst (ClaimedFrom (o ∷ os)) (sym q) (
                extend o os r.0 r.1 qs
                  (λ m. claim_object-Claims o w (e ∙ (λ i. (ok (m i, r.1), u))))
                  (claim_loop-ClaimedFrom os u p))
          | inr (x, u, e, k) ↦
              let (es, p, q) = add_error-eq-ok rest x u _ k in skip (claim_loop-ClaimedFrom os u p)
        ]

-- Each pod that ClaimOwnedObjects returns stands for a listed pod, in the same order: either the
-- service already controls that pod, the pod passes the match and comes back as it was, or it was an
-- orphan that passes the match, with neither it nor the service being deleted.
pub claim_owned_objects-ClaimedFrom :
    (L : Machinery) (C : Client) (mgr : RefManager L) (filters : List (Pod → Bool)) (os : List Pod)
    (w w' : World C) (ps : List Pod) (e : Option GoError)
    → claim_owned_objects L C mgr os filters w ≡ (ok (ps, e), w')
    → ClaimedFrom L C mgr (match_object L mgr filters) os ps
unfolding claim_owned_objects
claim_owned_objects-ClaimedFrom L C mgr filters os w w' ps e h =
    let loop : Loop L C mgr (match_object L mgr filters) =
      claim_loop L C mgr (match_object L mgr filters) os in
    let done =
      λ (r : List Pod × List GoError). pure {S = World C} (r.0, L.new_aggregate (map some r.1)) in
    let ((qs, es), v, p, k) = >>=-eq-ok loop done w h in
    let q : qs ≡ ps = ground arith in
    subst (ClaimedFrom L C mgr (match_object L mgr filters) os) q
      (claim_loop-ClaimedFrom L C mgr (match_object L mgr filters) os w p)
