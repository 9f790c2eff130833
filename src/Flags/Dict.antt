-- ===== src/Flags/Dict.antt =====
-- The abstract view of a set of flags: from names to values, without the records that hold them.
use frp_provisioner.Prelude.{
  String, Bool, true, any, List, [], ◌∷◌, ◌++◌, map, Option, none, some, ◌==◌, if◌then◌else◌,
}
use frp_provisioner.Prelude.Int.{ℤ}
use frp_provisioner.Go.{GoError, Result, ok, err, panic}
use frp_provisioner.Flags.Defs.{
  Flag, Setting, bool_var, int_var, duration_var, string_var, string_array_var, value_var, Readers,
  Declared,
}

pub data Value : Type 0 where
  bool_value : Bool → Value
  int_value : ℤ → Value
  duration_value : ℤ → Value
  string_value : String → Value
  strings_value : List String → Value
  level_value : String → Value

abbrev pub Values : Type 0
Values = List (String × Value)

abbrev pub find_value : String → Values → Option Value
find_value n [] = none
find_value n ((m, v) ∷ d) = if m == n then some v else find_value n d

-- The first entry of this name is replaced.
abbrev pub put : String → Value → Values → Values
put n v [] = []
put n v ((m, w) ∷ d) = if m == n then (m, v) ∷ d else (m, w) ∷ put n v d

module _ {S : Type 0} where
  abbrev pub value : Setting S → S → Value
  value (bool_var read _) s = bool_value (read s)
  value (int_var read _) s = int_value (read s)
  value (duration_var read _) s = duration_value (read s)
  value (string_var read _) s = string_value (read s)
  value (string_array_var read _) s = strings_value (read s)
  value (value_var read _) s = level_value (read s)

  -- The values that the fields behind the flags have.
  abbrev pub view : List (Flag S) → S → Values
  view fs s = map (λ f. (f.name, value f.setting s)) fs

  -- What a call leaves, under a view of the state.
  abbrev pub outcome : {A B : Type 0} → (S → B) → Result A × S → Result B
  outcome g (ok a, s) = ok (g s)
  outcome g (err e, s) = err e
  outcome g (panic m, s) = panic m

abbrev pub map_result : {A B : Type 0} → (A → B) → Result A → Result B
map_result f (ok a) = ok (f a)
map_result f (err e) = err e
map_result f (panic m) = panic m

abbrev pub map_error : {A : Type 0} → (GoError → GoError) → Result A → Result A
map_error f (ok a) = ok a
map_error f (err e) = err (f e)
map_error f (panic m) = panic m

abbrev pub then_result : {A B : Type 0} → Result A → (A → Result B) → Result B
then_result (ok a) f = f a
then_result (err e) f = err e
then_result (panic m) f = panic m

module _ (P : Readers) where
  -- The value that a text gives to a flag, by the kind of the value that it has.
  abbrev pub read : Bool → Value → String → Result Value
  read changed (bool_value _) t = map_result bool_value (P.parse_bool t)
  read changed (int_value _) t = map_result int_value (P.parse_int t)
  read changed (duration_value _) t = map_result duration_value (P.parse_duration t)
  read changed (string_value _) t = ok (string_value t)
  read changed (strings_value ts) t = ok (strings_value (if changed then ts ++ t ∷ [] else t ∷ []))
  read changed (level_value _) t = map_result level_value (P.parse_level t)

  abbrev pub assign_found :
      List Declared → Option Value → Bool → String → String → Values → Result Values
  assign_found ds none changed n t d = err (P.unknown_flag n)
  assign_found ds (some v) changed n t d =
      map_error (P.invalid_argument ds n t) (map_result (λ w. put n w d) (read changed v t))

  abbrev pub assign_all :
      List Declared → List String → List (String × String) → Values → Result Values
  assign_all ds seen [] d = ok d
  assign_all ds seen ((n, t) ∷ given) d =
      then_result (assign_found ds (find_value n d) (any (λ m. m == n) seen) n t d)
        (assign_all ds (n ∷ seen) given)

  -- The value of one flag behind a command line: the one it had, or the one that the texts given for
  -- it read as.
  abbrev pub settle_flag : String → Bool → List (String × String) → Value → Result Value
  settle_flag n changed [] v = ok v
  settle_flag n changed ((m, t) ∷ given) v =
      let own = then_result (read changed v t) (settle_flag n true given) in
      let other = settle_flag n changed given v in if m == n then own else other
