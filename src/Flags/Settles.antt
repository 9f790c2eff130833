-- ===== src/Flags/Settles.antt =====
-- What an assignment of values to names leaves at each name.
use mathlib.Core.Path.{subst}
use frp_provisioner.Prelude.{
  String, Bool, false, any, List, [], ◌∷◌, Option, none, some, ◌≡◌, refl, sym, ap, ◌∙◌, ◌==◌, ◌||◌,
  eq_refl, if◌then◌else◌, Bool-cases, inl, inr, eq_iff,
}
use frp_provisioner.Go.{GoError, Result, ok, err, panic}
use frp_provisioner.Flags.Defs.{Readers, Declared}
use frp_provisioner.Flags.Dict.{
  Value, Values, find_value, put, map_result, map_error, then_result, read, assign_found,
  assign_all, settle_flag,
}

find-put_self :
    (n : String) (v : Value) (d : Values) {w : Value}
    → find_value n d ≡ some w
    → find_value n (put n v d) ≡ some v
find-put_self n v [] h = absurd (cc)
find-put_self n v ((k, x) ∷ d) h = elim (Bool-cases (k == n)) [
  | inl same ↦ rw (same, if◌then◌else◌, same, if◌then◌else◌)
  | inr other ↦
      rw (other, if◌then◌else◌, other, if◌then◌else◌)
        (find-put_self n v d (rw (other, if◌then◌else◌) at h))
]

find-put_other :
    (n m : String) (v : Value) (d : Values)
    → m == n ≡ false
    → find_value n (put m v d) ≡ find_value n d
find-put_other n m v [] h = refl
find-put_other n m v ((k, x) ∷ d) h = elim (Bool-cases (k == m)) [
  | inl same ↦
      let kn : k == n ≡ false = ap (λ j. j == n) ((eq_iff k m).0 same) ∙ h in
      rw (same, if◌then◌else◌, kn, if◌then◌else◌)
  | inr other ↦
      rw (other, if◌then◌else◌) (ap (λ r. if k == n then some x else r) (find-put_other n m v d h))
]

then_map-eq-ok :
    {A B : Type 0} (r : Result A) (f : A → B) (next : B → Result Values) {d : Values}
    → then_result (map_result f r) next ≡ ok d
    → (a : A) × (r ≡ ok a) × (next (f a) ≡ ok d)
then_map-eq-ok (ok a) f next h = (a, refl, h)
then_map-eq-ok (err e) f next h = absurd (cc)
then_map-eq-ok (panic m) f next h = absurd (cc)

then_error-eq-ok :
    {A : Type 0} (worse : GoError → GoError) (r : Result A) (next : A → Result Values) {d : Values}
    → then_result (map_error worse r) next ≡ ok d
    → then_result r next ≡ ok d
then_error-eq-ok worse (ok a) next h = h
then_error-eq-ok worse (err e) next h = absurd (cc)
then_error-eq-ok worse (panic m) next h = absurd (cc)

some-injective : {A : Type 0} {a b : A} → some a ≡ some b → a ≡ b
some-injective h = cc

result_of : Values → Result Values → Values
result_of d (ok a) = a
result_of d _ = d

module _ (P : Readers) where
  abbrev Settles : String → Bool → List (String × String) → Value → Values → Type 0
  Settles n changed given v d =
      (w : Value) × (settle_flag P n changed given v ≡ ok w) × (find_value n d ≡ some w)

  assigned :
      (ds : List Declared) (o : Option Value) (changed : Bool) (m t : String) (d : Values)
      (next : Values → Result Values) {d' : Values}
      → then_result (assign_found P ds o changed m t d) next ≡ ok d'
      → (x : Value) × (w : Value) × (o ≡ some x)
        × (read P changed x t ≡ ok w)
        × (next (put m w d) ≡ ok d')
  assigned ds none changed m t d next h = absurd (cc)
  assigned ds (some x) changed m t d next h =
      let (w, e, k) =
        then_map-eq-ok (read P changed x t) (λ w. put m w d) next
          (then_error-eq-ok (P.invalid_argument ds m t)
            (map_result (λ w. put m w d) (read P changed x t)) next h) in
      (x, w, refl, e, k)

  -- After an assignment, each name has the value that it had, or that its texts read as.
  pub assign_all-settle :
      (ds : List Declared) (n : String) (given : List (String × String)) (seen : List String)
      (d d' : Values) (v : Value)
      → find_value n d ≡ some v
      → assign_all P ds seen given d ≡ ok d'
      → Settles n (any (λ m. m == n) seen) given v d'
  unfolding result_of
  assign_all-settle ds n [] seen d d' v h e =
      (v, refl, ap (find_value n) (ap (result_of d) (sym e)) ∙ h)
  assign_all-settle ds n ((m, t) ∷ given) seen d d' v h e = elim (Bool-cases (m == n)) [
    | inl same ↦
        let mn = (eq_iff m n).0 same in
        let (x, w, found, reads, rest) =
          assigned ds (find_value m d) (any (λ k. k == m) seen) m t d
            (assign_all P ds (m ∷ seen) given) e in
        let xv : x ≡ v = some-injective (sym found ∙ ap (λ k. find_value k d) mn ∙ h) in
        let reads' : read P (any (λ k. k == n) seen) v t ≡ ok w =
          (λ i. read P (any (λ k. k == sym mn i) seen) (sym xv i) t) ∙ reads in
        let at_n : assign_all P ds (n ∷ seen) given (put n w d) ≡ ok d' =
          (λ i. assign_all P ds (sym mn i ∷ seen) given (put (sym mn i) w d)) ∙ rest in
        let (y, settled, there) =
          assign_all-settle ds n given (n ∷ seen) (put n w d) d' w (find-put_self n w d h) at_n in
        (
          y,
          rw (same, if◌then◌else◌, reads')
              (subst (λ b. settle_flag P n (b || any (λ k. k == n) seen) given w ≡ ok y) (eq_refl n)
                settled),
          there,
        )
    | inr other ↦
        let (x, w, found, reads, rest) =
          assigned ds (find_value m d) (any (λ k. k == m) seen) m t d
            (assign_all P ds (m ∷ seen) given) e in
        let (y, settled, there) =
          assign_all-settle ds n given (m ∷ seen) (put m w d) d' v
            (find-put_other n m w d other ∙ h) rest in
        (
          y,
          rw (other, if◌then◌else◌)
              (subst (λ b. settle_flag P n (b || any (λ k. k == n) seen) given v ≡ ok y) other
                settled),
          there,
        )
  ]
