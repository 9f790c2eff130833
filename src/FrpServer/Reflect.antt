-- ===== src/FrpServer/Reflect.antt =====
-- What the tests of the webhooks decide.
use Prim.Native.Nat.{compare, Ordering}
use frp_provisioner.Prelude.{
  ℕ, ◌+◌, ◌≤◌, ◌<◌, String, true, false, not, ◌&&◌, List, [], ◌∷◌, ◌==◌, ◌≡◌, ◌≢◌, ◌⊎◌, ◌↔◌, inl,
  inr, refl, All, Bool-cases, eq_iff, arith,
}
use frp_provisioner.Prelude.Int.{ℤ, pos, pos_part, neg_part, le_int, lt_int, ◌≤ℤ◌}
use frp_provisioner.Go.{differs}
use frp_provisioner.Kube.{Machinery, IsLawful}

-- One of these texts.
abbrev pub IsOneOf : String → List String → Type 0
IsOneOf x [] = ⊥
IsOneOf x (y ∷ ys) = (y ≡ x) ⊎ IsOneOf x ys

lt_nat : (m n : ℕ) → ((elim (compare m n) [ Ordering.lt ↦ true | _ ↦ false ]) ≡ false) ↔ (n ≤ m)
lt_nat m n = ((λ h. ground arith), λ h. ground arith)

le_nat : (m n : ℕ) → ((elim (compare m n) [ Ordering.gt ↦ false | _ ↦ true ]) ≡ true) ↔ (m ≤ n)
le_nat m n = ((λ h. ground arith), λ h. ground arith)

pub lt_int-false : (a b : ℤ) → (lt_int a b ≡ false) ↔ (b ≤ℤ a)
lt_int-false a b = lt_nat (pos_part a + neg_part b) (pos_part b + neg_part a)

pub le_int-true : (a b : ℤ) → (le_int a b ≡ true) ↔ (a ≤ℤ b)
le_int-true a b = le_nat (pos_part a + neg_part b) (pos_part b + neg_part a)

gt_nat : (m n : ℕ) → ((elim (compare m n) [ Ordering.gt ↦ false | _ ↦ true ]) ≡ false) ↔ (n < m)
gt_nat m n = ((λ h. ground arith), λ h. ground arith)

-- At least one.
pub le_int-positive : (a : ℤ) → (le_int a (pos 0) ≡ false) ↔ (pos 1 ≤ℤ a)
le_int-positive a =
    let (f, g) = gt_nat (pos_part a + 0) (0 + neg_part a) in
    ((λ h. let lt = f h in omega arith), λ h. g (omega arith))

pub both-false : (a b c d : String) → (((a == b) && (c == d)) ≡ false) ↔ ((a ≢ b) ⊎ (c ≢ d))
both-false a b c d = elim (Bool-cases (a == b)) [
  | inl same ↦ (
    (λ h. inr ((differs c d).0 (ground arith))),
    λ s. elim s [
      | inl n ↦ absurd (n ((eq_iff a b).0 same))
      | inr n ↦ rw (same) ((differs c d).1 n)
    ],
  )
  | inr diff ↦ ((λ h. inl ((differs a b).0 diff)), λ s. rw (diff) refl)
]

module _ (L : Machinery) (lawful : IsLawful L) where
  contains-IsOneOf : (xs : List String) (x : String) → L.contains xs x ≡ true → IsOneOf x xs
  contains-IsOneOf [] x h = absurd (ground (arith, lawful.contains-nil x))
  contains-IsOneOf (y ∷ ys) x h = elim (Bool-cases (y == x)) [
    | inl same ↦ inl ((eq_iff y x).0 same)
    | inr d ↦ inr (contains-IsOneOf ys x (ground (arith, lawful.contains-cons x y ys)))
  ]

  IsOneOf-contains : (xs : List String) (x : String) → IsOneOf x xs → L.contains xs x ≡ true
  IsOneOf-contains [] x h = absurd h
  IsOneOf-contains (y ∷ ys) x (inl e) = rw (lawful.contains-cons x y ys, (eq_iff y x).1 e) refl
  IsOneOf-contains (y ∷ ys) x (inr h) =
      ground (arith, lawful.contains-cons x y ys, IsOneOf-contains ys x h)

  pub not_contains-false :
      (xs : List String) (x : String) → (not (L.contains xs x) ≡ false) ↔ IsOneOf x xs
  not_contains-false xs x =
      ((λ h. contains-IsOneOf xs x (ground arith)), λ h. ground (arith, IsOneOf-contains xs x h))

  every-IsOneOf : (xs ys : List String) → L.every xs ys ≡ true → All (λ y. IsOneOf y xs) ys
  every-IsOneOf xs [] h = tt
  every-IsOneOf xs (y ∷ ys) h = (
    contains-IsOneOf xs y (ground (arith, lawful.every-cons xs ys y)),
    every-IsOneOf xs ys (ground (arith, lawful.every-cons xs ys y)),
  )

  IsOneOf-every : (xs ys : List String) → All (λ y. IsOneOf y xs) ys → L.every xs ys ≡ true
  IsOneOf-every xs [] h = lawful.every-nil xs
  IsOneOf-every xs (y ∷ ys) (a, b) =
      rw (lawful.every-cons xs ys y, IsOneOf-contains xs y a, IsOneOf-every xs ys b) refl

  pub not_every-false :
      (xs ys : List String) → (not (L.every xs ys) ≡ false) ↔ All (λ y. IsOneOf y xs) ys
  not_every-false xs ys =
      ((λ h. every-IsOneOf xs ys (ground arith)), λ h. ground (arith, IsOneOf-every xs ys h))
