-- ===== src/Go/Checks.antt =====
-- Sequences of checks that gather errors, and what their tests decide.
use frp_provisioner.Prelude.{
  String, Bool, true, false, List, [], ◌∷◌, Option, none, some, ◌==◌, ◌≡◌, ◌≢◌, ◌↔◌, inl, inr, refl,
  is_empty, Bool-cases, eq_iff, arith,
}
use frp_provisioner.Go.Errors.{GoError, join, note_if}

pub join-some : (errs : Option GoError) (e : GoError) → join errs (some e) ≢ none
join-some none e h = absurd (cc)
join-some (some d) e h = absurd (cc)

-- A check in front of others: nothing is wrong if it passes and nothing else is wrong.
pub note_if-none :
    {P Q : Type 0} (bad : Bool) (message : String) (errs : Option GoError)
    → (bad ≡ false) ↔ P
    → (errs ≡ none) ↔ Q
    → (note_if bad message errs ≡ none) ↔ (Q × P)
unfolding note_if
note_if-none true message errs (p, q) (f, g) =
    ((λ h. absurd (join-some errs _ h)), λ (y, x). absurd (ground (arith, q x)))
note_if-none false message errs (p, q) (f, g) = ((λ h. (f h, p refl)), λ (y, x). g y)

pub differs : (a b : String) → ((a == b) ≡ false) ↔ (a ≢ b)
differs a b = (
  (λ h e. absurd (ground (arith, (eq_iff a b).1 e))),
  λ h. elim (Bool-cases (a == b)) [ inl same ↦ absurd (h ((eq_iff a b).0 same)) | inr d ↦ d ],
)

pub is_empty-false : (xs : List String) → (is_empty xs ≡ false) ↔ (xs ≢ [])
is_empty-false [] = ((λ h. absurd (cc)), λ h. absurd (h refl))
is_empty-false (x ∷ xs) = ((λ h e. absurd (cc)), λ h. refl)
