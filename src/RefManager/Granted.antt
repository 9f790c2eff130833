-- ===== src/RefManager/Granted.antt =====
-- adopt and release, when the server grants every request.
use mathlib.Core.List.{append-nil, append_assoc}
use frp_provisioner.Prelude.{
  ℕ, suc, String, Bool, true, false, any, List, [], ◌∷◌, ◌++◌, Option, none, some, ◌==◌, ◌≡◌, inl,
  inr, refl, sym, ap, ◌∙◌, arith, eq_refl, Bool-cases, if◌then◌else◌,
}
use frp_provisioner.Go.{GoError, Result, ok}
use frp_provisioner.Kube.{
  OwnerReference, Pod, with_owner_references, Machinery, IsNone, Client, Call, World,
}
use frp_provisioner.RefManager.Owner.{
  RefManager, owner_kind, check_fresh, can_adopt, can_adopt_once, run_once, settle,
}
use frp_provisioner.RefManager.Defs.{owner_index, adopt, release}
use frp_provisioner.RefManager.Updates.{remove_first, cut-remove_first}
use frp_provisioner.RefManager.Spec.{adopted, Grants, owner_key, requests_of}

owner_index-any :
    (uid : String) (i : ℕ) (refs : List OwnerReference)
    → any (λ r. r.uid == uid) refs ≡ true
    → (idx : ℕ) × (owner_index uid i refs ≡ some idx)
unfolding owner_index
owner_index-any uid i [] h = absurd (cc)
owner_index-any uid i (r ∷ refs) h = elim (Bool-cases (r.uid == uid)) [
  | inl same ↦ (i, rw (same, if◌then◌else◌))
  | inr other ↦
      let (idx, e) = owner_index-any uid (suc i) refs (ground arith) in
      (idx, rw (other, if◌then◌else◌) e)
]

owner_index-none :
    (uid : String) (i : ℕ) (refs : List OwnerReference)
    → any (λ r. r.uid == uid) refs ≡ false
    → owner_index uid i refs ≡ none
unfolding owner_index
owner_index-none uid i [] h = refl
owner_index-none uid i (r ∷ refs) h = ground (arith, owner_index-none uid (suc i) refs)

-- The state of `once` before and after the owner was read.
abbrev pub once_for : Bool → Option (Option GoError)
once_for true = some none
once_for false = none

module _ (L : Machinery) (C : Client) (mgr : RefManager L) (G : Grants L C mgr) where
  -- A call returned this, and made these requests; the owner has been read or not.
  abbrev pub Answers : {A : Type 0} → Result A × World C → A → World C → List Call → Bool → Type 0
  Answers r a w calls read =
      (u : World C) × (r ≡ (ok a, u)) × (u.calls ≡ w.calls ++ calls) × (u.once ≡ once_for read)

  pub same_calls : (w : World C) → w.calls ≡ w.calls ++ []
  same_calls w = sym (append-nil w.calls)

  knows_kind : (w : World C) → owner_kind L C mgr w ≡ (ok G.kind, w)
  unfolding owner_kind
  knows_kind w = rw (G.has_schema, G.knows_kinds, G.makes) refl

  reads_owner :
      (w : World C)
      → (u : World C) × (can_adopt L C mgr w ≡ (ok tt, u))
        × (u.calls ≡ w.calls ++ Call.get_object G.kind (owner_key L C mgr G) ∷ [])
  unfolding can_adopt check_fresh
  reads_owner w =
      let (t, e) = G.reads w.store in
      (
        record w {
          store = t;
          calls = w.calls ++ Call.get_object G.kind (owner_key L C mgr G) ∷ [];
        },
        rw (knows_kind w, e, eq_refl mgr.owner.uid, G.alive) refl,
        refl,
      )

  may_adopt :
      (read : Bool) (w : World C)
      → w.once ≡ once_for read
      → Answers
          (can_adopt_once L C mgr w)
          none
          w
          (if read then [] else Call.get_object G.kind (owner_key L C mgr G) ∷ [])
          true
  unfolding can_adopt_once
  may_adopt true w h = (w, ap (λ r. run_once L C mgr r w) h, same_calls w, h)
  may_adopt false w h =
      let (u, e, calls) = reads_owner w in
      (
        record u { once = some none },
        ap (λ r. run_once L C mgr r w) h ∙ ap (settle L C) e,
        calls,
        refl,
      )

  pub adopts :
      (o : Pod) (read : Bool) (w : World C)
      → IsNone (L.get_controller_of o.owner_references)
      → w.once ≡ once_for read
      → Answers
          (adopt L C mgr o w)
          (with_owner_references o (G.refs o))
          w
          (requests_of L C mgr G read o adopted)
          true
  unfolding adopt
  adopts o read w orphan h =
      let (u, e, calls, settled) = may_adopt read w h in
      let (t, updated) = G.updates (with_owner_references o (G.refs o)) u.store in
      (
        record u {
          store = t;
          calls = u.calls ++ Call.update_pod (with_owner_references o (G.refs o)) ∷ [];
        },
        rw (e, G.has_schema, G.sets o orphan, updated) refl,
        rw calls (append_assoc w.calls _ _),
        settled,
      )

  pub releases_at :
      (o : Pod) (read : Bool) (w : World C) (found : Bool)
      → any (λ r. r.uid == mgr.owner.uid) o.owner_references ≡ found
      → w.once ≡ once_for read
      → Answers
          (release L C mgr o w)
          tt
          w
          (if found
            then Call.update_pod
                (with_owner_references o (remove_first mgr.owner.uid o.owner_references))
              ∷ []
            else [])
          read
  unfolding release
  releases_at o read w false missing h =
      (w, rw (owner_index-none mgr.owner.uid 0 o.owner_references missing) refl, same_calls w, h)
  releases_at o read w true there h =
      let (idx, e) = owner_index-any mgr.owner.uid 0 o.owner_references there in
      let cut = cut-remove_first mgr.owner.uid o.owner_references idx e in
      let fewer = with_owner_references o (remove_first mgr.owner.uid o.owner_references) in
      let (t, updated) = G.updates fewer w.store in
      (
        record w { store = t; calls = w.calls ++ Call.update_pod fewer ∷ [] },
        rw (e, cut, updated) refl,
        refl,
        h,
      )
