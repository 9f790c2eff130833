-- ===== src/Tests/Lines.antt =====
-- A small flag library: what it reads and prints.
use frp_provisioner.Prelude.{
  suc, String, ◌<>◌, Bool, true, false, List, [], ◌∷◌, Option, none, some, ◌==◌, refl,
  if◌then◌else◌,
}
use frp_provisioner.Prelude.Int.{ℤ, pos, negsuc}
use frp_provisioner.Go.{Result, ok, err, text, error_text, lift, ◌>>◌}
use frp_provisioner.Flags.{
  FlagLibrary, Readers, Split, split_for, ParsesInOrder, Flag, Declared, set_all,
}

-- A flag is "--name", with the next argument as its text, unless it may stand without one.
abbrev pub is_flag : String → List Declared → Option Declared
is_flag a [] = none
is_flag a (d ∷ ds) = if a == "--" <> d.name then some d else is_flag a ds

abbrev pub add_rest : String → Result (List String) → Result (List String)
add_rest a (ok l) = ok (a ∷ l)
add_rest a r = r

-- The first argument, with the splits of those behind it, from the next and from the one after it on.
abbrev pub with_first : Option Declared → String → String → Split → Split → Split
with_first none a t next later = record { given = next.given; rest = add_rest a next.rest }
with_first (some d) a t next later =
    if d.is_optional
    then record { given = (d.name, "true") ∷ next.given; rest = next.rest }
    else record { given = (d.name, t) ∷ later.given; rest = later.rest }

abbrev pub with_last : Option Declared → String → Split
with_last none a = record { given = []; rest = ok (a ∷ []) }
with_last (some d) a =
    if d.is_optional
    then record { given = (d.name, "true") ∷ []; rest = ok [] }
    else record { given = []; rest = err (text ("flag needs an argument: " <> a)) }

unfoldable pub split_line : List Declared → List String → Split
split_line ds [] = record { given = []; rest = ok [] }
split_line ds (a ∷ []) = with_last (is_flag a ds) a
split_line ds (a ∷ t ∷ args) =
    with_first (is_flag a ds) a t (split_line ds (t ∷ args)) (split_line ds args)

abbrev pub flag_names : List Declared → String → String
flag_names [] n = "--" <> n
flag_names (d ∷ ds) n =
    if d.name == n
    then if d.shorthand == "" then "--" <> n else "-" <> d.shorthand <> ", --" <> n
    else flag_names ds n

abbrev pub read_bool : String → Result Bool
read_bool t =
    if t == "true" then ok true else if t == "false" then ok false else err (text "invalid syntax")

-- 2n characters are the integer n, and 2n + 1 are -(n + 1).
abbrev pub away : ℤ → ℤ
away (pos n) = pos (suc n)
away (negsuc n) = negsuc (suc n)

abbrev pub count_strokes : String → ℤ
count_strokes String.[] = pos 0
count_strokes (String.◌∷◌ _ String.[]) = negsuc 0
count_strokes (String.◌∷◌ _ (String.◌∷◌ _ s)) = away (count_strokes s)

abbrev pub readers : Readers
readers = record {
  split = split_line;
  parse_bool = read_bool;
  parse_int = λ t. ok (count_strokes t);
  parse_duration = λ t. ok (count_strokes t);
  parse_level = λ t. if t == "debug" then ok t else err (text "unrecognized level");
  unknown_flag = λ n. text ("unknown flag: --" <> n);
  invalid_argument = λ ds n t e.
      text ("invalid argument " <> t <> " for " <> flag_names ds n <> " flag: " <> error_text e);
}

abbrev pub flag_library : FlagLibrary
flag_library = record {
  readers = readers;
  parse = λ S fs args.
      set_all readers fs [] (split_for readers fs args).given
      >> lift (split_for readers fs args).rest;
}

pub in_order : {S : Type 0} → (fs : List (Flag S)) → ParsesInOrder flag_library fs
in_order fs args s = refl
