-- ===== src/RefManager/Refines.antt =====
-- ClaimOwnedObjects does what its specification says, when the server grants every request.
use mathlib.Core.List.{append_assoc}
use frp_provisioner.Prelude.{
  String, Bool, true, false, ◌&&◌, any, is_some, is_none, List, [], ◌∷◌, ◌++◌, Option, none, some,
  ◌==◌, ◌≡◌, refl, ap, ◌∙◌, if◌then◌else◌,
}
use frp_provisioner.Go.{GoError, Result, ok, M, continue}
use frp_provisioner.Kube.{
  OwnerReference, Pod, with_owner_references, Machinery, IsNone, Client, World,
}
use frp_provisioner.RefManager.Owner.{RefManager}
use frp_provisioner.RefManager.Defs.{
  claim_controlled, claim_orphan, claim_by, claim_object, add_error, add_claim, claim_loop,
  claim_owned_objects, match_object,
}
use frp_provisioner.RefManager.Spec.{
  Fate, left, kept, released, adopted, fate_by, fate, Grants, result_of, read_after, requests_of,
  add_result, results, requests,
}
use frp_provisioner.RefManager.Granted.{once_for, Answers, same_calls, adopts, releases_at}

module _ (L : Machinery) (C : Client) (mgr : RefManager L) (G : Grants L C mgr) where
  module _ (matches : Pod → Bool) where
    -- A claim of this pod answered as its fate says.
    abbrev Meets : Result (Bool × Pod) × World C → Pod → Fate → Bool → World C → Type 0
    Meets r o f read w =
        (mine : Bool) × (seen : Pod) × (Answers L C mgr G r (mine, seen) w
          (requests_of L C mgr G read o f) (read_after L C mgr G read f))
        × ((ps : List Pod)
            → (if mine then seen ∷ ps else ps) ≡ add_result L C mgr G (result_of L C mgr G o f) ps)

    lives : is_some mgr.owner.deletion_timestamp ≡ false
    lives = ap is_some G.alive

    -- A pod that is ours, and one that fits.
    claim_controlled-Meets :
        (o : Pod) (ref : OwnerReference) (read ours fits : Bool) (w : World C)
        → ref.uid == mgr.owner.uid ≡ ours
        → matches o ≡ fits
        → w.once ≡ once_for read
        → Meets
            (claim_controlled L C mgr o matches ref w)
            o
            (if ours then (if fits then kept else released) else left)
            read
            w
    unfolding claim_controlled
    claim_controlled-Meets o ref read false fits w differs m h =
        (false, o, (w, rw (differs, if◌then◌else◌) refl, same_calls L C mgr G w, h), λ ps. refl)
    claim_controlled-Meets o ref read true true w same m h = (
      true,
      o,
      (w, rw (same, if◌then◌else◌, m, if◌then◌else◌) refl, same_calls L C mgr G w, h),
      λ ps. refl,
    )
    claim_controlled-Meets o ref read true false w same m h =
        let (u, e, calls, settled) =
          releases_at L C mgr G o read w (any (λ r. r.uid == mgr.owner.uid) o.owner_references) refl
            h in
        (
          false,
          o,
          (u, rw (same, if◌then◌else◌, m, if◌then◌else◌, lives, e) refl, calls, settled),
          λ ps. refl,
        )

    claim_orphan-Meets :
        (o : Pod) (read fits : Bool) (time : Option String) (w : World C)
        → IsNone (L.get_controller_of o.owner_references)
        → matches o ≡ fits
        → o.deletion_timestamp ≡ time
        → w.once ≡ once_for read
        → Meets
            (claim_orphan L C mgr o matches w)
            o
            (if fits && is_none time then adopted else left)
            read
            w
    unfolding claim_orphan
    claim_orphan-Meets o read false time w orphan m d h =
        (false, o, (w, rw (lives, m) refl, same_calls L C mgr G w, h), λ ps. refl)
    claim_orphan-Meets o read true (some t) w orphan m d h =
        let gone : is_some o.deletion_timestamp ≡ true = ap is_some d in
        (false, o, (w, rw (lives, m, gone) refl, same_calls L C mgr G w, h), λ ps. refl)
    claim_orphan-Meets o read true none w orphan m d h =
        let here : is_some o.deletion_timestamp ≡ false = ap is_some d in
        let (u, e, calls, settled) = adopts L C mgr G o read w orphan h in
        (
          true,
          with_owner_references o (G.refs o),
          (u, rw (lives, m, here, e) refl, calls, settled),
          λ ps. refl,
        )

    claim_by-Meets :
        (o : Pod) (c : Option OwnerReference) (read : Bool) (w : World C)
        → L.get_controller_of o.owner_references ≡ c
        → w.once ≡ once_for read
        → Meets (claim_by L C mgr o matches c w) o (fate_by L mgr matches o c) read w
    unfolding claim_by
    claim_by-Meets o (some ref) read w e h =
        claim_controlled-Meets o ref read (ref.uid == mgr.owner.uid) (matches o) w refl refl h
    claim_by-Meets o none read w e h =
        claim_orphan-Meets o read (matches o) o.deletion_timestamp w e refl refl h

    answered :
        (rest : M (World C) (List Pod × List GoError)) (mine : Bool) (seen : Pod) (qs : List Pod)
        (u v : World C)
        → rest u ≡ (ok (qs, []), v)
        → add_claim L C rest (mine, seen) u ≡ (ok ((if mine then seen ∷ qs else qs), []), v)
    unfolding add_claim
    answered rest mine seen qs u v e = rw e refl

    claim_loop-results :
        (os : List Pod) (read : Bool) (w : World C)
        → w.once ≡ once_for read
        → (u : World C) × (claim_loop L C mgr matches os w
            ≡ (ok (results L C mgr G matches os, []), u))
          × (u.calls ≡ w.calls ++ requests L C mgr G matches read os)
    unfolding claim_loop claim_object
    claim_loop-results [] read w h = (w, refl, same_calls L C mgr G w)
    claim_loop-results (o ∷ os) read w h =
        let f = fate L mgr matches o in
        let rest = claim_loop L C mgr matches os in
        let (mine, seen, (u, e, calls, settled), adds) =
          claim_by-Meets o (L.get_controller_of o.owner_references) read w refl h in
        let (v, e2, calls2) = claim_loop-results os (read_after L C mgr G read f) u settled in
        (
          v,
          ap (λ r. continue r (add_error L C rest) (add_claim L C rest)) e
              ∙ answered rest mine seen (results L C mgr G matches os) u v e2
              ∙ ap (λ ps. (ok (ps, []), v)) (adds (results L C mgr G matches os)),
          calls2
              ∙ ap (λ cs. cs ++ requests L C mgr G matches (read_after L C mgr G read f) os) calls
              ∙ append_assoc w.calls (requests_of L C mgr G read o f)
                  (requests L C mgr G matches (read_after L C mgr G read f) os),
        )

-- If the service is not being deleted and every request is granted, then ClaimOwnedObjects of a new
-- reference manager returns exactly the pods that its specification names, in order, with no error but
-- an aggregate of none, and makes exactly the requests that the specification names: a matching pod that
-- the service controls is returned as it is; a matching orphan that is not being deleted is updated to
-- be controlled by the service and returned so, the owner being read once before the first of them; a
-- pod that the service controls and that does not match is updated to lose its first reference to the
-- service; and any other pod is left alone.
pub claim_owned_objects-refines :
    (L : Machinery) (C : Client) (mgr : RefManager L) (G : Grants L C mgr)
    (filters : List (Pod → Bool)) (listed : List Pod) (w : World C)
    → w.once ≡ none
    → (u : World C) × (claim_owned_objects L C mgr listed filters w
        ≡ (ok (results L C mgr G (match_object L mgr filters) listed, L.new_aggregate []), u))
      × (u.calls ≡ w.calls ++ requests L C mgr G (match_object L mgr filters) false listed)
unfolding claim_owned_objects
claim_owned_objects-refines L C mgr G filters listed w h =
    let (u, e, calls) =
      claim_loop-results L C mgr G (match_object L mgr filters) listed false w h in
    (u, rw e refl, calls)
