-- ===== src/Go/Reasoning.antt =====
-- Reasoning about calls with errors: what a call keeps, and what a successful one went through.
use frp_provisioner.Prelude.{
  String, Bool, true, false, if◌then◌else◌, Option, none, some, ◌≡◌, ◌∙◌, refl, ◌⊎◌, inl, inr,
}
use frp_provisioner.Go.Errors.{GoError}
use frp_provisioner.Go.Monad.{
  Result, ok, err, panic, M, pure, fail, lift, continue, handle, ◌>>=◌, error_of, return_error,
}

-- Whatever the call returns, it keeps this property of the state.
abbrev pub Keeps : {S A : Type 0} → (S → Type 0) → M S A → Type 0
Keeps {S} P m = (s : S) → P s → P (m s).1

module _ {S : Type 0} (P : S → Type 0) where
  pub pure-Keeps : {A : Type 0} (a : A) → Keeps P (pure a)
  pure-Keeps a s h = h

  pub fail-Keeps : (A : Type 0) (e : GoError) → Keeps {A = A} P (fail e)
  fail-Keeps A e s h = h

  pub lift-Keeps : {A : Type 0} (r : Result A) → Keeps P (lift r)
  lift-Keeps r s h = h

  pub return_error-Keeps : (e : Option GoError) → Keeps P (return_error e)
  return_error-Keeps none s h = h
  return_error-Keeps (some e) s h = h

  pub continue-keeps :
      {A B : Type 0} (r : Result A) (s : S) (on_error : GoError → M S B) (next : A → M S B)
      → ((e : GoError) → Keeps P (on_error e))
      → ((a : A) → Keeps P (next a))
      → P s
      → P (continue (r, s) on_error next).1
  continue-keeps (ok a) s on_error next he hn h = hn a s h
  continue-keeps (err e) s on_error next he hn h = he e s h
  continue-keeps (panic p) s on_error next he hn h = h

  pub handle-Keeps :
      {A B : Type 0} (m : M S A) (on_error : GoError → M S B) (next : A → M S B)
      → Keeps P m
      → ((e : GoError) → Keeps P (on_error e))
      → ((a : A) → Keeps P (next a))
      → Keeps P (handle m on_error next)
  handle-Keeps m on_error next hm he hn s h =
      continue-keeps (m s).0 (m s).1 on_error next he hn (hm s h)

  pub >>=-Keeps :
      {A B : Type 0} (m : M S A) (next : A → M S B)
      → Keeps P m
      → ((a : A) → Keeps P (next a))
      → Keeps P (m >>= next)
  >>=-Keeps m next hm hn = handle-Keeps m fail next hm (λ e s h. h) hn

  -- The same from the state in between on.
  pub >>=-after :
      {A B : Type 0} (m : M S A) (next : A → M S B) (s : S)
      → P (m s).1
      → ((a : A) → Keeps P (next a))
      → P ((m >>= next) s).1
  >>=-after m next s h hn = continue-keeps (m s).0 (m s).1 fail next (λ e s h. h) hn h

  -- The same, with the call's own result at hand.
  then-keeps :
      {A B : Type 0} (r : Result A) (u : S) (next : A → M S B)
      → P u
      → ((a : A) → r ≡ ok a → P (next a u).1)
      → P (continue (r, u) fail next).1
  then-keeps (ok a) u next h hn = hn a refl
  then-keeps (err e) u next h hn = h
  then-keeps (panic p) u next h hn = h

  pub >>=-then :
      {A B : Type 0} (m : M S A) (next : A → M S B) (s : S)
      → P (m s).1
      → ((a : A) → (m s).0 ≡ ok a → P (next a (m s).1).1)
      → P ((m >>= next) s).1
  >>=-then m next s h hn = then-keeps (m s).0 (m s).1 next h hn

  pub if-Keeps :
      {A : Type 0} (b : Bool) (m n : M S A)
      → (b ≡ true → Keeps P m)
      → (b ≡ false → Keeps P n)
      → Keeps P (if b then m else n)
  if-Keeps true m n hm hn = hm refl
  if-Keeps false m n hm hn = hn refl

  pub option-Keeps :
      {A B : Type 0} (o : Option A) (m : M S B) (next : A → M S B)
      → Keeps P m
      → ((a : A) → Keeps P (next a))
      → Keeps P (elim o [ none ↦ m | some a ↦ next a ])
  option-Keeps none m next hm hn = hm
  option-Keeps (some a) m next hm hn = hn a

  pub error_of-Keeps : {A : Type 0} (m : M S A) → Keeps P m → Keeps P (error_of m)
  error_of-Keeps m hm =
      handle-Keeps m (λ e. pure (some e)) (λ _. pure none) hm (λ e s h. h) (λ a s h. h)

module _ {S A B : Type 0} where
  -- A call that succeeded, through its body or through the handler of its error.
  abbrev pub Through : M S A → (GoError → M S B) → (A → M S B) → S → B → S → Type 0
  Through m on_error next s b t =
      ((a : A) × (u : S) × (m s ≡ (ok a, u)) × (next a u ≡ (ok b, t)))
      ⊎ ((e : GoError) × (u : S) × (m s ≡ (err e, u)) × (on_error e u ≡ (ok b, t)))

  continue-eq-ok :
      (r : Result A) (u : S) (on_error : GoError → M S B) (next : A → M S B) {b : B} {t : S}
      → continue (r, u) on_error next ≡ (ok b, t)
      → ((a : A) × (r ≡ ok a) × (next a u ≡ (ok b, t)))
        ⊎ ((e : GoError) × (r ≡ err e) × (on_error e u ≡ (ok b, t)))
  continue-eq-ok (ok a) u on_error next h = inl (a, refl, h)
  continue-eq-ok (err e) u on_error next h = inr (e, refl, h)
  continue-eq-ok (panic p) u on_error next h = absurd (cc)

  pub handle-eq-ok :
      (m : M S A) (on_error : GoError → M S B) (next : A → M S B) (s : S) {b : B} {t : S}
      → handle m on_error next s ≡ (ok b, t)
      → Through m on_error next s b t
  handle-eq-ok m on_error next s h = elim (continue-eq-ok (m s).0 (m s).1 on_error next h) [
    | inl (a, e, k) ↦ inl (a, (m s).1, (λ i. (e i, (m s).1)), k)
    | inr (x, e, k) ↦ inr (x, (m s).1, (λ i. (e i, (m s).1)), k)
  ]

  pub >>=-eq-ok :
      (m : M S A) (next : A → M S B) (s : S) {b : B} {t : S}
      → (m >>= next) s ≡ (ok b, t)
      → (a : A) × (u : S) × (m s ≡ (ok a, u)) × (next a u ≡ (ok b, t))
  >>=-eq-ok m next s h = elim (handle-eq-ok m fail next s h) [
    | inl r ↦ r
    | inr (e, u, p, k) ↦ absurd (cc)
  ]

-- A call whose error is returned with more text.
pub failing-eq-ok :
    {S A B : Type 0} (m : M S A) (worse : GoError → GoError) (next : A → M S B) (s : S) {b : B}
    {t : S}
    → handle m (λ e. fail (worse e)) next s ≡ (ok b, t)
    → (a : A) × (u : S) × (m s ≡ (ok a, u)) × (next a u ≡ (ok b, t))
failing-eq-ok m worse next s h = elim (handle-eq-ok m (λ e. fail (worse e)) next s h) [
  | inl r ↦ r
  | inr (e, u, p, q) ↦ absurd (cc)
]

-- The same, in front of the rest.
pub step-eq-ok :
    {S A B : Type 0} (m : M S A) (worse : GoError → GoError) (next : A → M S B) (s : S) {b : B}
    {t : S}
    → (handle m (λ e. fail (worse e)) pure >>= next) s ≡ (ok b, t)
    → (a : A) × (u : S) × (m s ≡ (ok a, u)) × (next a u ≡ (ok b, t))
step-eq-ok m worse next s h =
    let (a, u, p, q) = >>=-eq-ok (handle m (λ e. fail (worse e)) pure) next s h in
    let (c, v, x, y) = failing-eq-ok m worse pure s p in (a, u, x ∙ y, q)

-- What every way out of a call returns.
module _ {S A B : Type 0} (R : Result B → Type 0) where
  continue-Returns :
      (r : Result A) (u : S) (on_error : GoError → M S B) (next : A → M S B)
      → ((e : GoError) (u : S) → R (on_error e u).0)
      → ((a : A) (u : S) → R (next a u).0)
      → ((message : String) → R (panic message))
      → R (continue (r, u) on_error next).0
  continue-Returns (ok a) u on_error next he hn hp = hn a u
  continue-Returns (err e) u on_error next he hn hp = he e u
  continue-Returns (panic p) u on_error next he hn hp = hp p

  pub handle-Returns :
      (m : M S A) (on_error : GoError → M S B) (next : A → M S B)
      → ((e : GoError) (u : S) → R (on_error e u).0)
      → ((a : A) (u : S) → R (next a u).0)
      → ((message : String) → R (panic message))
      → (s : S) → R (handle m on_error next s).0
  handle-Returns m on_error next he hn hp s =
      continue-Returns (m s).0 (m s).1 on_error next he hn hp

  -- For a result that no state takes part in, with the equation.
  pub lift-Returns :
      (r : Result A) (on_error : GoError → M S B) (next : A → M S B)
      → ((e : GoError) (u : S) → R (on_error e u).0)
      → ((a : A) → r ≡ ok a → (u : S) → R (next a u).0)
      → ((message : String) → R (panic message))
      → (s : S) → R (handle (lift r) on_error next s).0
  lift-Returns (ok a) on_error next he hn hp s = hn a refl s
  lift-Returns (err e) on_error next he hn hp s = he e s
  lift-Returns (panic p) on_error next he hn hp s = hp p

pub return_error-eq-ok :
    {S : Type 0} (e : Option GoError) (s t : S) → return_error e s ≡ (ok tt, t) → e ≡ none
return_error-eq-ok none s t h = refl
return_error-eq-ok (some e) s t h = absurd (cc)
