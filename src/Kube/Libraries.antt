-- ===== src/Kube/Libraries.antt =====
-- The functions of vendored libraries that the controllers call: `lo`, `apimachinery` (errors,
-- labels, owner references, schemes, yaml) and `controllerutil`. They are parameters of the model;
-- `IsLawful` states what is documented of them and what the theorems rest on.
use frp_provisioner.Prelude.{
  ◌&&◌, is_none, String, Bool, true, false, List, [], ◌∷◌, Option, none, some, ◌≡◌, ◌==◌, All,
  if◌then◌else◌,
}
use frp_provisioner.Go.{
  StringMap, GoError, Result, ok, status, text, wrap, not_found, other_reason, lookup,
}
use frp_provisioner.Prelude.Int.{ℤ, is_zero}
use frp_provisioner.Kube.Objects.{Condition, OwnerReference, Service, Pod}

-- What `runtime.Scheme.New` made: whether it is a `client.Object`.
pub data NewObject : Type 0 where
  client_object : String → NewObject
  plain_object : String → NewObject

pub record Machinery : Type 1 where
  -- lo.Contains and lo.Without, at strings
  pub contains : List String → String → Bool
  pub without : List String → String → List String
  -- lo.Every(collection, subset), at strings
  pub every : List String → List String → Bool
  -- util.EmptyOr of frp, at strings, integers and pointers to a flag
  pub empty_or_text : String → String → String
  pub empty_or_int : ℤ → ℤ → ℤ
  pub empty_or_flag : Option Bool → Option Bool → Option Bool
  -- meta.SetStatusCondition
  pub set_status_condition : List Condition → Condition → List Condition
  -- errors.IsNotFound
  pub is_not_found : GoError → Bool
  -- utilerrors.NewAggregate
  pub new_aggregate : List (Option GoError) → Option GoError
  -- labels.SelectorFromSet(set).Matches(labels)
  pub selector_matches : StringMap → StringMap → Bool
  -- metav1.GetControllerOf, by the owner references of the object
  pub get_controller_of : List OwnerReference → Option OwnerReference
  pub Scheme : Type 0
  -- Scheme.ObjectKinds of a *v1.Service, and Scheme.New
  pub object_kinds : Scheme → Result (List String)
  pub scheme_new : Scheme → String → Result NewObject
  -- controllerutil.SetControllerReference: the owner references that the object has afterwards
  pub set_controller_reference : Service → Pod → Scheme → Result (List OwnerReference)
  -- yaml.Unmarshal into a v1.Pod
  pub unmarshal_pod : String → Result Pod
  -- a pod printed by `%+v`
  pub pod_text : Pod → String

abbrev pub IsNone {ℓ} : {A : Type ℓ} → Option A → Type ℓ
IsNone o = o ≡ none

-- The reference marks its holder as the controller.
abbrev pub IsController : OwnerReference → Type 0
IsController r = r.controller ≡ some true

-- A pod is controlled by the object with this uid.
abbrev pub ControlledBy : Machinery → String → List OwnerReference → Type 0
ControlledBy L uid refs = (r : OwnerReference) × (L.get_controller_of refs ≡ some r) × (r.uid ≡ uid)

-- Every entry of the set is an entry of the labels.
abbrev pub Selects : StringMap → StringMap → Type 0
Selects set labels = All (λ (k, v). lookup k labels ≡ some v) set

-- The first condition of this type, as FindStatusCondition finds it.
abbrev pub find_condition : String → List Condition → Option Condition
find_condition kind [] = none
find_condition kind (c ∷ cs) = if c.kind == kind then some c else find_condition kind cs

abbrev pub HasCondition : Condition → List Condition → Type 0
HasCondition c cs =
    (d : Condition) × (find_condition c.kind cs ≡ some d)
    × (d.status ≡ c.status)
    × (d.reason ≡ c.reason)
    × (d.message ≡ c.message)

pub record IsLawful (L : Machinery) : Type 0 where
  pub contains-nil : (x : String) → L.contains [] x ≡ false
  pub contains-cons :
      (x y : String) (xs : List String)
      → L.contains (y ∷ xs) x ≡ (if y == x then true else L.contains xs x)
  pub without-nil : (x : String) → L.without [] x ≡ []
  pub without-cons :
      (x y : String) (xs : List String)
      → L.without (y ∷ xs) x ≡ (if y == x then L.without xs x else y ∷ L.without xs x)
  pub every-nil : (xs : List String) → L.every xs [] ≡ true
  pub every-cons :
      (xs ys : List String) (y : String) → L.every xs (y ∷ ys) ≡ (L.contains xs y && L.every xs ys)
  pub empty_or_text_lem : (v d : String) → L.empty_or_text v d ≡ (if v == "" then d else v)
  pub empty_or_int_lem : (v d : ℤ) → L.empty_or_int v d ≡ (if is_zero v then d else v)
  pub empty_or_flag_lem : (v d : Option Bool) → L.empty_or_flag v d ≡ (if is_none v then d else v)
  -- The condition of this type is then the given one, up to the time of its last transition.
  pub condition_set :
      (cs : List Condition) (c : Condition) → HasCondition c (L.set_status_condition cs c)
  -- Only an answer of the API server with this reason is "not found"; `%w` keeps it visible.
  pub is_not_found-status : (m : String) → L.is_not_found (status not_found m) ≡ true
  pub is_not_found-other : (m : String) → L.is_not_found (status other_reason m) ≡ false
  pub is_not_found-text : (m : String) → L.is_not_found (text m) ≡ false
  pub is_not_found-wrap : (m : String) (e : GoError) → L.is_not_found (wrap m e) ≡ L.is_not_found e
  -- An aggregate of errors is nil if no error among them is not nil, and then only.
  pub new_aggregate_nil : (l : List (Option GoError)) → All IsNone l → L.new_aggregate l ≡ none
  pub new_aggregate_all : (l : List (Option GoError)) → L.new_aggregate l ≡ none → All IsNone l
  pub selects : (set labels : StringMap) → L.selector_matches set labels ≡ true → Selects set labels
  pub selected :
      (set labels : StringMap) → Selects set labels → L.selector_matches set labels ≡ true
  -- After it succeeded, the owner is the controller.
  pub controls :
      (owner : Service) (p : Pod) (scheme : L.Scheme) (refs : List OwnerReference)
      → L.set_controller_reference owner p scheme ≡ ok refs
      → ControlledBy L owner.uid refs
