-- ===== src/RefManager/Updates.antt =====
-- The two kinds of updates that the reference manager makes of pods.
use frp_provisioner.Prelude.{
  ℕ, ◌+◌, suc, String, Bool, true, false, List, [], ◌∷◌, ◌++◌, some, ◌==◌, ◌≡◌, ◌⊎◌, inl, inr,
  arith, Bool-cases, if◌then◌else◌, take, drop, ap,
}
use frp_provisioner.Kube.{
  OwnerReference, Pod, Machinery, ControlledBy, IsNone, Client, with_owner_references,
}
use frp_provisioner.RefManager.Owner.{RefManager}
use frp_provisioner.RefManager.Defs.{owner_index}
use frp_provisioner.RefManager.Claiming.{IsOurs, IsAdoptable}

-- The references without the first one to this uid.
abbrev pub remove_first : String → List OwnerReference → List OwnerReference
remove_first uid [] = []
remove_first uid (ref ∷ refs) = if ref.uid == uid then refs else ref ∷ remove_first uid refs

-- Cutting the slice at an index that the loop found is removing the first match.
cut_from :
    (uid : String) (i : ℕ) (refs : List OwnerReference) (idx : ℕ)
    → owner_index uid i refs ≡ some idx
    → (k : ℕ) × (idx ≡ i + k) × (take k refs ++ drop (suc k) refs ≡ remove_first uid refs)
unfolding owner_index
cut_from uid i [] idx h = absurd (cc)
cut_from uid i (ref ∷ refs) idx h = elim (Bool-cases (ref.uid == uid)) [
  | inl same ↦ (0, ground arith, rw same)
  | inr differs ↦
      let (k, e, cut) = cut_from uid (suc i) refs idx (rw differs at h) in
      (suc k, omega arith, rw differs (ap (λ l. ref ∷ l) cut))
]

-- If the loop of `release` finds an index, then cutting the slice of references there leaves the
-- references without the first one to this uid.
pub cut-remove_first :
    (uid : String) (refs : List OwnerReference) (idx : ℕ)
    → owner_index uid 0 refs ≡ some idx
    → take idx refs ++ drop (suc idx) refs ≡ remove_first uid refs
cut-remove_first uid refs idx h =
    let (k, e, cut) = cut_from uid 0 refs idx h in let p : idx ≡ k = omega arith in rw p cut

-- Membership that computes.
abbrev pub Among : Pod → List Pod → Type 0
Among o [] = ⊥
Among o (p ∷ ps) = (o ≡ p) ⊎ Among o ps

module _ (L : Machinery) (C : Client) (mgr : RefManager L) (matches : Pod → Bool) where
  -- An update that makes the service the controller of a listed orphan.
  abbrev pub IsAdoption : List Pod → Pod → Type 0
  IsAdoption listed p =
      (o : Pod) × (refs : List OwnerReference) × Among o listed
      × (matches o ≡ true)
      × IsAdoptable L C mgr matches o
      × ControlledBy L mgr.owner.uid refs
      × (p ≡ with_owner_references o refs)

  -- An update that takes the service's reference off a listed pod of its own.
  abbrev pub IsRelease : List Pod → Pod → Type 0
  IsRelease listed p =
      (o : Pod) × Among o listed
      × (matches o ≡ false)
      × IsOurs L C mgr matches o
      × IsNone mgr.owner.deletion_timestamp
      × (p ≡ with_owner_references o (remove_first mgr.owner.uid o.owner_references))
