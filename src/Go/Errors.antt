-- ===== src/Go/Errors.antt =====
-- Go's `error` values, as far as the program makes and reads them: those of the Kubernetes API,
-- `fmt.Errorf` with and without `%w`, and `errors.Join` with two arguments.
use frp_provisioner.Prelude.{String, ◌<>◌, Bool, Option, none, some, if◌then◌else◌}

-- The reasons of a `StatusError` that the program tells apart.
pub data StatusReason : Type 0 where
  not_found : StatusReason
  other_reason : StatusReason

pub data GoError : Type 0 where
  -- an error answered by the API server
  status : StatusReason → String → GoError
  -- `errors.New`, and `fmt.Errorf` with no `%w`: nothing but a text
  text : String → GoError
  -- `fmt.Errorf` with `%w`: the text, and the error inside
  wrap : String → GoError → GoError
  -- `errors.Join(nil, e)`
  join_one : GoError → GoError
  -- `errors.Join(a, b)`
  join_two : GoError → GoError → GoError

-- `err.Error()`
unfoldable pub error_text : GoError → String
error_text (status _ message) = message
error_text (text message) = message
error_text (wrap message _) = message
error_text (join_one e) = error_text e
error_text (join_two a b) = error_text a <> "\n" <> error_text b

-- `fmt.Errorf("…%w", …, err)`, with the text before the verb.
abbrev pub errorf_w : String → GoError → GoError
errorf_w prefix e = wrap (prefix <> error_text e) e

-- `fmt.Errorf("…%v", …, err)`: the error inside is lost.
abbrev pub errorf_v : String → GoError → GoError
errorf_v prefix e = text (prefix <> error_text e)

-- `errors.Join(errs, err)`
abbrev pub join : Option GoError → Option GoError → Option GoError
join none none = none
join none (some e) = some (join_one e)
join (some e) none = some (join_one e)
join (some a) (some b) = some (join_two a b)

-- `if bad { err = errors.Join(err, fmt.Errorf(message)) }`
unfoldable pub note_if : Bool → String → Option GoError → Option GoError
note_if bad message errs = if bad then join errs (some (text message)) else errs
