-- ===== src/Flags/Refines.antt =====
-- Setting flags one after the other refines the assignment of values to names.
use mathlib.Core.Path.{subst}
use frp_provisioner.Prelude.{
  String, Bool, any, All, List, [], ◌∷◌, ◌≡◌, refl, ap, ◌++◌, ◌==◌, if◌then◌else◌, Bool-cases, inl,
  inr, eq_iff,
}
use frp_provisioner.Go.{GoError, Result, ok, err, panic, M, pure, fail, lift, continue, ◌>>=◌, ◌>>◌}
use frp_provisioner.Flags.Defs.{
  Flag, Setting, bool_var, int_var, duration_var, string_var, string_array_var, value_var, Readers,
  Declared, declared, store, set_flag, find_flag, set_named, set_all,
}
use frp_provisioner.Flags.Dict.{
  Value, bool_value, int_value, duration_value, string_value, strings_value, level_value, Values,
  find_value, put, value, view, outcome, map_result, map_error, then_result, read, assign_found,
  assign_all,
}

module _ (P : Readers) {S : Type 0} (K : S → Type 0) (fs : List (Flag S)) where
  -- A write changes the value of this flag, and of no other.
  abbrev Writes : {A : Type 0} → String → (A → Value) → (A → S → S) → S → Type 0
  Writes {A} n v write s = (a : A) → (view fs (write a s) ≡ put n (v a) (view fs s)) × K (write a s)

  abbrev pub SetsAt : String → S → Result (Unit {0}) × S → Result String → Type 0
  SetsAt n s r (ok l) =
      (u : S) × (r ≡ (ok tt, u)) × (view fs u ≡ put n (level_value l) (view fs s)) × K u
  SetsAt n s r (err e) = r ≡ (err e, s)
  SetsAt n s r (panic m) = r ≡ (panic m, s)

  -- In this state, setting a flag of this name keeps K and writes its own value only.
  abbrev Respects : S → String → Setting S → Type 0
  Respects s n (bool_var _ write) = Writes n bool_value write s
  Respects s n (int_var _ write) = Writes n int_value write s
  Respects s n (duration_var _ write) = Writes n duration_value write s
  Respects s n (string_var _ write) = Writes n string_value write s
  Respects s n (string_array_var _ write) = Writes n strings_value write s
  Respects s n (value_var _ write) = (t : String) → SetsAt n s (write t s) (P.parse_level t)

  abbrev pub RespectsAt : S → Flag S → Type 0
  RespectsAt s f = Respects s f.name f.setting

  -- A call answers as the assignment does, and keeps K.
  abbrev Simulates : Result (Unit {0}) × S → Result Values → Type 0
  Simulates r a = (outcome (view fs) r ≡ a) × K r.1

  stored :
      {A : Type 0} (v : A → Value) (write : A → S → S) (n : String) (r : Result A) (s : S)
      → K s
      → Writes n v write s
      → Simulates
          ((lift r >>= store P write) s)
          (map_result (λ w. put n w (view fs s)) (map_result v r))
  stored v write n (ok a) s k w = (ap ok (w a).0, (w a).1)
  stored v write n (err e) s k w = (refl, k)
  stored v write n (panic m) s k w = (refl, k)

  level_set :
      (n : String) (s : S) (r : Result (Unit {0}) × S) (l : Result String)
      → K s
      → SetsAt n s r l
      → Simulates r (map_result (λ w. put n w (view fs s)) (map_result level_value l))
  level_set n s r (ok l) k (u, e, p, ku) = rw e (ap ok p, ku)
  level_set n s r (err x) k e = rw e (refl, k)
  level_set n s r (panic m) k e = rw e (refl, k)

  set_flag-Simulates :
      (σ : Setting S) (changed : Bool) (n t : String) (s : S)
      → K s
      → Respects s n σ
      → Simulates
          (set_flag P σ changed t s)
          (map_result (λ w. put n w (view fs s)) (read P changed (value σ s) t))
  unfolding set_flag
  set_flag-Simulates (bool_var _ write) changed n t s k w =
      stored bool_value write n (P.parse_bool t) s k w
  set_flag-Simulates (int_var _ write) changed n t s k w =
      stored int_value write n (P.parse_int t) s k w
  set_flag-Simulates (duration_var _ write) changed n t s k w =
      stored duration_value write n (P.parse_duration t) s k w
  set_flag-Simulates (string_var _ write) changed n t s k w = (ap ok (w t).0, (w t).1)
  set_flag-Simulates (string_array_var get write) changed n t s k w =
      let all = if changed then get s ++ t ∷ [] else t ∷ [] in (ap ok (w all).0, (w all).1)
  set_flag-Simulates (value_var _ write) changed n t s k w =
      level_set n s (write t s) (P.parse_level t) k (w t)

  worsens :
      (worse : GoError → GoError) (r : Result (Unit {0}) × S) (a : Result Values)
      → Simulates r a
      → Simulates (continue r (λ e. fail (worse e)) pure) (map_error worse a)
  worsens worse (ok _, u) a (e, k) = rw (← e) (refl, k)
  worsens worse (err x, u) a (e, k) = rw (← e) (refl, k)
  worsens worse (panic m, u) a (e, k) = rw (← e) (refl, k)

  set_named-Simulates :
      (ds : List Declared) (gs : List (Flag S)) (changed : Bool) (n t : String) (s : S)
      → K s
      → All (RespectsAt s) gs
      → Simulates
          (set_named P ds (find_flag P n gs) changed n t s)
          (assign_found P ds (find_value n (view gs s)) changed n t (view fs s))
  unfolding set_named
  set_named-Simulates ds [] changed n t s k h = (refl, k)
  set_named-Simulates ds (g ∷ gs) changed n t s k (h, hs) = elim (Bool-cases (g.name == n)) [
    | inl same ↦
        rw (same, if◌then◌else◌)
          (subst
            (λ m.
              Simulates
                (continue (set_flag P g.setting changed t s)
                  (λ e. fail (P.invalid_argument ds n t e)) pure)
                (map_error (P.invalid_argument ds n t)
                  (map_result (λ w. put m w (view fs s)) (read P changed (value g.setting s) t))))
            ((eq_iff g.name n).0 same)
            (worsens (P.invalid_argument ds n t) _ _
              (set_flag-Simulates g.setting changed g.name t s k h)))
    | inr other ↦ rw (other, if◌then◌else◌) (set_named-Simulates ds gs changed n t s k hs)
  ]

  goes_on :
      (r : Result (Unit {0}) × S) (a : Result Values) (next : M S (Unit {0}))
      (rest : Values → Result Values)
      → Simulates r a
      → ((u : S) → K u → Simulates (next u) (rest (view fs u)))
      → Simulates ((lift r.0 >> next) r.1) (then_result a rest)
  goes_on (ok _, u) a next rest (e, k) h = rw (← e) (h u k)
  goes_on (err x, u) a next rest (e, k) h = rw (← e) (refl, k)
  goes_on (panic m, u) a next rest (e, k) h = rw (← e) (refl, k)

  module _ (respects : (s : S) → K s → All (RespectsAt s) fs) where
    -- Setting flags in order, on the fields, is the assignment in order to their names.
    pub set_all-Simulates :
        (given : List (String × String)) (seen : List String) (s : S)
        → K s
        → (outcome (view fs) (set_all P fs seen given s)
            ≡ assign_all P (declared fs) seen given (view fs s))
          × K (set_all P fs seen given s).1
    unfolding set_all
    set_all-Simulates [] seen s k = (refl, k)
    set_all-Simulates ((n, t) ∷ given) seen s k =
        goes_on (set_named P (declared fs) (find_flag P n fs) (any (λ m. m == n) seen) n t s) _
          (set_all P fs (n ∷ seen) given) (assign_all P (declared fs) (n ∷ seen) given)
          (set_named-Simulates (declared fs) fs (any (λ m. m == n) seen) n t s k (respects s k))
          (set_all-Simulates given (n ∷ seen))
