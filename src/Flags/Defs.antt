-- ===== src/Flags/Defs.antt =====
-- Flags as pkg/config, pkg/log and cmd register them with pflag: the name and the field that is bound,
-- as the way to read it and to write it. The usage text is left out.
use frp_provisioner.Prelude.{
  String, Bool, true, false, any, List, [], ◌∷◌, ◌++◌, map, Option, none, some, ◌≡◌, ◌==◌,
  if◌then◌else◌,
}
use frp_provisioner.Prelude.Int.{ℤ}
use frp_provisioner.Go.{GoError, Result, ok, M, pure, fail, lift, handle, ◌>>=◌, ◌>>◌}

-- BoolVar, IntVar, DurationVar, StringVar and StringArrayVar of a field of S, and Var with the String
-- and the Set of a type of the program's own.
pub data Setting (S : Type 0) : Type 0 where
  bool_var : (S → Bool) → (Bool → S → S) → Setting S
  int_var : (S → ℤ) → (ℤ → S → S) → Setting S
  duration_var : (S → ℤ) → (ℤ → S → S) → Setting S
  string_var : (S → String) → (String → S → S) → Setting S
  string_array_var : (S → List String) → (List String → S → S) → Setting S
  value_var : (S → String) → (String → M S (Unit {0})) → Setting S

pub record Flag (S : Type 0) : Type 0 where
  pub name : String
  pub shorthand : String
  pub setting : Setting S

module _ {S T : Type 0} (get : T → S) (set : S → T → T) where
  -- A setting of a part, as one of the whole.
  abbrev pub inside : Setting S → Setting T
  inside (bool_var read write) = bool_var (λ t. read (get t)) (λ v t. set (write v (get t)) t)
  inside (int_var read write) = int_var (λ t. read (get t)) (λ v t. set (write v (get t)) t)
  inside (duration_var read write) =
      duration_var (λ t. read (get t)) (λ v t. set (write v (get t)) t)
  inside (string_var read write) = string_var (λ t. read (get t)) (λ v t. set (write v (get t)) t)
  inside (string_array_var read write) =
      string_array_var (λ t. read (get t)) (λ v t. set (write v (get t)) t)
  inside (value_var read write) =
      value_var (λ t. read (get t)) (λ v t. let (r, s) = write v (get t) in (r, set s t))

  abbrev pub within : List (Flag S) → List (Flag T)
  within fs =
      map (λ f. record { name = f.name; shorthand = f.shorthand; setting = inside f.setting }) fs

-- How a command line reads: the flags that it gives a value to, in order, and then the arguments that
-- are no flags, or the error at which the reading ends.
pub record Split : Type 0 where
  pub given : List (String × String)
  pub rest : Result (List String)

-- What the reading of a command line knows of a flag: its names, and whether it may stand without a
-- text, as pflag has it for the flags of BoolVar.
pub record Declared : Type 0 where
  pub name : String
  pub shorthand : String
  pub is_optional : Bool

abbrev is_bool : {S : Type 0} → Setting S → Bool
is_bool (bool_var _ _) = true
is_bool _ = false

abbrev pub declared : {S : Type 0} → List (Flag S) → List Declared
declared fs =
    map (λ f. record { name = f.name; shorthand = f.shorthand; is_optional = is_bool f.setting }) fs

-- How the texts of a command line read: by strconv and time for the kinds of pflag, and by ParseLevel
-- of zapcore, which answers with the name of the level.
pub record Readers : Type 0 where
  -- how a command line splits, by the flags that there are
  pub split : List Declared → List String → Split
  pub parse_bool : String → Result Bool
  pub parse_int : String → Result ℤ
  pub parse_duration : String → Result ℤ
  pub parse_level : String → Result String
  pub unknown_flag : String → GoError
  -- The error of a Set, in the words of FlagSet.Set: with the names of the flag, and the text
  pub invalid_argument : List Declared → String → String → GoError → GoError

-- pflag: FlagSet.Parse and then FlagSet.Args.
pub record FlagLibrary : Type 1 where
  pub readers : Readers
  pub parse : (S : Type 0) → List (Flag S) → List String → M S (List String)

module _ (P : Readers) {S : Type 0} where
  abbrev pub store : {A : Type 0} → (A → S → S) → A → M S (Unit {0})
  store write a s = (ok tt, write a s)

  -- What pflag documents of Set: a text array is replaced by the first value, and then appended to.
  unfoldable pub set_flag : Setting S → Bool → String → M S (Unit {0})
  set_flag (bool_var _ write) changed t = lift (P.parse_bool t) >>= store write
  set_flag (int_var _ write) changed t = lift (P.parse_int t) >>= store write
  set_flag (duration_var _ write) changed t = lift (P.parse_duration t) >>= store write
  set_flag (string_var _ write) changed t = store write t
  set_flag (string_array_var read write) changed t =
      λ s. store write (if changed then read s ++ t ∷ [] else t ∷ []) s
  set_flag (value_var _ write) changed t = write t

  abbrev pub find_flag : String → List (Flag S) → Option (Flag S)
  find_flag n [] = none
  find_flag n (f ∷ fs) = if f.name == n then some f else find_flag n fs

  unfoldable pub set_named :
      List Declared → Option (Flag S) → Bool → String → String → M S (Unit {0})
  unfolding set_flag
  set_named ds none changed n t = fail (P.unknown_flag n)
  set_named ds (some f) changed n t =
      handle (set_flag f.setting changed t) (λ e. fail (P.invalid_argument ds n t e)) pure

  -- The values of a command line, one after the other; `seen` are the flags that have had one.
  unfoldable pub set_all : List (Flag S) → List String → List (String × String) → M S (Unit {0})
  unfolding set_named
  set_all fs seen [] = pure tt
  set_all fs seen ((n, t) ∷ given) =
      set_named (declared fs) (find_flag n fs) (any (λ m. m == n) seen) n t
      >> set_all fs (n ∷ seen) given

abbrev pub split_for : {S : Type 0} → Readers → List (Flag S) → List String → Split
split_for P fs args = P.split (declared fs) args

-- What pflag documents of Parse for these flags: it calls Set for each value that is given, in order, up
-- to an error.
abbrev pub ParsesInOrder : FlagLibrary → {S : Type 0} → List (Flag S) → Type 0
ParsesInOrder P {S} fs =
    (args : List String) (s : S)
    → P.parse S fs args s
      ≡ (set_all P.readers fs [] (split_for P.readers fs args).given
            >> lift (split_for P.readers fs args).rest)
          s
