-- ===== src/Go/Monad.antt =====
-- Calls that return `(value, error)` or panic, over a state that they change.
use frp_provisioner.Prelude.{String, Option, none, some}
use frp_provisioner.Go.Errors.{GoError}

pub data Result {ℓ} (A : Type ℓ) : Type ℓ where
  ok : A → Result A
  err : GoError → Result A
  panic : String → Result A

abbrev pub M : Type 0 → Type 0 → Type 0
M S A = S → Result A × S

abbrev pub pure : {S A : Type 0} → A → M S A
pure a s = (ok a, s)

-- `return …, err`
abbrev pub fail : {S A : Type 0} → GoError → M S A
fail e s = (err e, s)

abbrev pub crash : {S A : Type 0} → String → M S A
crash message s = (panic message, s)

-- `return err`, which may be nil.
abbrev pub return_error : {S : Type 0} → Option GoError → M S (Unit {0})
return_error none s = (ok tt, s)
return_error (some e) s = (err e, s)

abbrev pub continue :
    {S A B : Type 0} → Result A × S → (GoError → M S B) → (A → M S B) → Result B × S
continue (ok a, s) on_error next = next a s
continue (err e, s) on_error next = on_error e s
continue (panic message, s) on_error next = (panic message, s)

-- `a, err := m; if err != nil { return on_error(err) }; next(a)`. A panic goes through.
abbrev pub handle : {S A B : Type 0} → M S A → (GoError → M S B) → (A → M S B) → M S B
handle m on_error next s = continue (m s) on_error next

infixl 5 ◌>>=◌ ◌>>◌
abbrev pub ◌>>=◌ : {S A B : Type 0} → M S A → (A → M S B) → M S B
m >>= next = handle m fail next

abbrev pub ◌>>◌ : {S A B : Type 0} → M S A → M S B → M S B
m >> next = m >>= λ _. next

-- `err := m`: the error as a value.
abbrev pub error_of : {S A : Type 0} → M S A → M S (Option GoError)
error_of m = handle m (λ e. pure (some e)) (λ _. pure none)

-- A result that no state takes part in.
abbrev pub lift : {S A : Type 0} → Result A → M S A
lift r s = (r, s)
