-- ===== src/FrpClient/Balance.antt =====
-- Calls that give back what they take.
use frp_provisioner.Prelude.{
  [], ℕ, String, Bool, true, false, List, ◌∷◌, Option, none, some, ◌≡◌, if◌then◌else◌,
}
use frp_provisioner.Go.{
  GoError, M, pure, fail, Keeps, handle-Keeps, return_error, return_error-Keeps, handle, ◌>>=◌,
}
use frp_provisioner.Kube.{SecretReference, Client, Call, World, silently}

module _ {C : Client} where
  -- These calls were made, and the process holds these files and these many connectors and
  -- connections.
  abbrev pub Holds : List Call → List String → ℕ → ℕ → World C → Type 0
  Holds calls files connectors connections w =
      (w.calls ≡ calls)
      × (w.temp_files ≡ files)
      × (w.connectors ≡ connectors)
      × (w.connections ≡ connections)

  -- No call is made, and whatever is held before is held after.
  unfoldable pub IsBalanced : {A : Type 0} → M (World C) A → Type 0
  IsBalanced m =
      (calls : List Call) (files : List String) (k n : ℕ) → Keeps (Holds calls files k n) m

-- The call for the secret that the object names.
abbrev pub secret_calls : Option SecretReference → List Call
secret_calls none = []
secret_calls (some ref) =
    Call.get_secret (record { namespace = ref.namespace; name = ref.name }) ∷ []

module _ (C : Client) where
  pub silently-IsBalanced : {A : Type 0} (m : M C.State A) → IsBalanced {C = C} (silently m)
  unfolding IsBalanced
  silently-IsBalanced m calls files k n w h = h

  pub fail-IsBalanced : (A : Type 0) (e : GoError) → IsBalanced {C = C} {A = A} (fail e)
  unfolding IsBalanced
  fail-IsBalanced A e calls files k n w h = h

  pub pure-IsBalanced : {A : Type 0} (a : A) → IsBalanced {C = C} (pure a)
  unfolding IsBalanced
  pure-IsBalanced a calls files k n w h = h

  pub return_error-IsBalanced : (e : Option GoError) → IsBalanced {C = C} (return_error e)
  unfolding IsBalanced
  return_error-IsBalanced e calls files k n = return_error-Keeps (Holds calls files k n) e

  pub handle-IsBalanced :
      {A B : Type 0} (m : M (World C) A) (on_error : GoError → M (World C) B)
      (next : A → M (World C) B)
      → IsBalanced m
      → ((e : GoError) → IsBalanced (on_error e))
      → ((a : A) → IsBalanced (next a))
      → IsBalanced (handle m on_error next)
  unfolding IsBalanced
  handle-IsBalanced m on_error next hm he hn calls files k n =
      handle-Keeps (Holds calls files k n) _ _ _ (hm calls files k n) (λ e. he e calls files k n)
        (λ a. hn a calls files k n)

  pub then-IsBalanced :
      {A B : Type 0} (m : M (World C) A) (next : A → M (World C) B)
      → IsBalanced m
      → ((a : A) → IsBalanced (next a))
      → IsBalanced (m >>= next)
  then-IsBalanced m next hm hn = handle-IsBalanced m fail next hm (fail-IsBalanced _) hn

  pub if-IsBalanced :
      {A : Type 0} (b : Bool) (m n : M (World C) A)
      → IsBalanced m
      → IsBalanced n
      → IsBalanced (if b then m else n)
  if-IsBalanced true m n hm hn = hm
  if-IsBalanced false m n hm hn = hn
