-- ===== src/Kube/Samples.antt =====
-- Concrete libraries that meet the assumptions, for the tests: they show that the theorems' hypotheses
-- can hold. Nothing but tests uses them.
use frp_provisioner.Prelude.Int.{is_zero}
use frp_provisioner.Prelude.{
  is_none, String, Bool, true, false, ◌&&◌, ◌||◌, List, [], ◌∷◌, Option, none, some, ◌==◌, ◌≡◌,
  refl, ap, sym, inl, inr, ◌∙◌, if◌then◌else◌, eq_iff, eq_refl, arith, All, Bool-cases,
}
use frp_provisioner.Go.{
  StringMap, GoError, Result, ok, err, status, text, wrap, join_one, join_two, not_found,
  other_reason, lookup,
}
use frp_provisioner.Kube.Objects.{Condition, OwnerReference, ObjectMeta, Service, Pod}
use frp_provisioner.Kube.Libraries.{
  HasCondition, Machinery, IsLawful, IsNone, Selects, client_object,
}

abbrev pub contains : List String → String → Bool
contains [] x = false
contains (y ∷ ys) x = if y == x then true else contains ys x

abbrev pub without : List String → String → List String
without [] x = []
without (y ∷ ys) x = let rest = without ys x in if y == x then rest else y ∷ rest

abbrev pub every : List String → List String → Bool
every xs [] = true
every xs (y ∷ ys) = contains xs y && every xs ys

-- The time stays where the status does.
abbrev pub set_status_condition : List Condition → Condition → List Condition
set_status_condition [] c = c ∷ []
set_status_condition (d ∷ cs) c =
    let rest = set_status_condition cs c in
    if d.kind == c.kind
    then (record c {
      last_transition_time =
          if d.status == c.status then d.last_transition_time else c.last_transition_time;
    })
      ∷ cs
    else d ∷ rest

abbrev pub is_not_found : GoError → Bool
is_not_found (status not_found _) = true
is_not_found (status other_reason _) = false
is_not_found (text _) = false
is_not_found (wrap _ e) = is_not_found e
is_not_found (join_one e) = is_not_found e
is_not_found (join_two a b) = is_not_found a || is_not_found b

-- The first error stands for the aggregate.
abbrev pub new_aggregate : List (Option GoError) → Option GoError
new_aggregate [] = none
new_aggregate (none ∷ l) = new_aggregate l
new_aggregate (some e ∷ l) = some e

abbrev pub has_entry : String → Option String → Bool
has_entry v none = false
has_entry v (some u) = u == v

abbrev pub selector_matches : StringMap → StringMap → Bool
selector_matches [] labels = true
selector_matches ((k, v) ∷ set) labels =
    has_entry v (lookup k labels) && selector_matches set labels

abbrev pub is_controller : Option Bool → Bool
is_controller none = false
is_controller (some b) = b

abbrev pub get_controller_of : List OwnerReference → Option OwnerReference
get_controller_of [] = none
get_controller_of (ref ∷ refs) =
    let rest = get_controller_of refs in if is_controller ref.controller then some ref else rest

abbrev pub reference_to : Service → OwnerReference
reference_to s = record { kind = "Service"; name = s.name; uid = s.uid; controller = some true }

-- An object of another controller is refused.
abbrev pub own :
    Service → List OwnerReference → Option OwnerReference → Result (List OwnerReference)
own s refs none = ok (reference_to s ∷ refs)
own s refs (some ref) = if ref.uid == s.uid then ok refs else err (text "already owned")

abbrev pub blank_meta : ObjectMeta
blank_meta = record {
  name = "";
  namespace = "";
  uid = "";
  labels = none;
  annotations = [];
  finalizers = [];
  owner_references = [];
  deletion_timestamp = none;
}

-- The text is the name of the only container.
abbrev pub unmarshal_pod : String → Result Pod
unmarshal_pod template =
    if template == ""
    then err (text "empty template")
    else ok (record { metadata = blank_meta; containers = template ∷ []; phase = "" })

abbrev pub libraries : Machinery
libraries = record {
  contains = contains;
  without = without;
  every = every;
  empty_or_text = λ v d. if v == "" then d else v;
  empty_or_int = λ v d. if is_zero v then d else v;
  empty_or_flag = λ v d. if is_none v then d else v;
  set_status_condition = set_status_condition;
  is_not_found = is_not_found;
  new_aggregate = new_aggregate;
  selector_matches = selector_matches;
  get_controller_of = get_controller_of;
  Scheme = Unit {0};
  object_kinds = λ _. ok ("Service" ∷ []);
  scheme_new = λ _ kind. ok (client_object kind);
  set_controller_reference =
      λ s p _. own s p.owner_references (get_controller_of p.owner_references);
  unmarshal_pod = unmarshal_pod;
  pod_text = λ p. p.name;
}

set_status_condition-HasCondition :
    (cs : List Condition) (c : Condition) → HasCondition c (set_status_condition cs c)
set_status_condition-HasCondition [] c = (c, rw (eq_refl c.kind), refl, refl, refl)
set_status_condition-HasCondition (d ∷ cs) c =
    let (e, found, a, b, m) = set_status_condition-HasCondition cs c in
    let time = if d.status == c.status then d.last_transition_time else c.last_transition_time in
    elim (Bool-cases (d.kind == c.kind)) [
      | inl same ↦ (
        record c { last_transition_time = time },
        rw (same, if◌then◌else◌, eq_refl c.kind),
        refl,
        refl,
        refl,
      )
      | inr differs ↦ (e, rw (differs, if◌then◌else◌, differs) found, a, b, m)
    ]

new_aggregate-none : (l : List (Option GoError)) → All IsNone l → new_aggregate l ≡ none
new_aggregate-none [] h = refl
new_aggregate-none (none ∷ l) h = new_aggregate-none l h.1
new_aggregate-none (some e ∷ l) h = h.0

new_aggregate-All : (l : List (Option GoError)) → new_aggregate l ≡ none → All IsNone l
new_aggregate-All [] h = tt
new_aggregate-All (none ∷ l) h = (refl, new_aggregate-All l h)
new_aggregate-All (some e ∷ l) h = absurd (cc)

has_entry-eq : (v : String) (o : Option String) → has_entry v o ≡ true → o ≡ some v
has_entry-eq v none h = absurd (cc)
has_entry-eq v (some u) h = ap some ((eq_iff u v).0 h)

and-split : (a b : Bool) → (a && b) ≡ true → (a ≡ true) × (b ≡ true)
and-split a b h = ground arith

selector_matches-Selects :
    (set labels : StringMap) → selector_matches set labels ≡ true → Selects set labels
selector_matches-Selects [] labels h = tt
selector_matches-Selects ((k, v) ∷ set) labels h =
    let (a, b) = and-split (has_entry v (lookup k labels)) (selector_matches set labels) h in
    (has_entry-eq v (lookup k labels) a, selector_matches-Selects set labels b)

Selects-selector_matches :
    (set labels : StringMap) → Selects set labels → selector_matches set labels ≡ true
Selects-selector_matches [] labels h = refl
Selects-selector_matches ((k, v) ∷ set) labels h =
    rw (h.0, has_entry, eq_refl v) (Selects-selector_matches set labels h.1)

Controls : Service → List OwnerReference → Type 0
Controls s out = (r : OwnerReference) × (get_controller_of out ≡ some r) × (r.uid ≡ s.uid)

own-Controls :
    (s : Service) (refs out : List OwnerReference) (o : Option OwnerReference)
    → get_controller_of refs ≡ o
    → own s refs o ≡ ok out
    → Controls s out
unfolding Controls
own-Controls s refs out none e h =
    let p : reference_to s ∷ refs ≡ out = ground arith in
    (reference_to s, ap get_controller_of (sym p), refl)
own-Controls s refs out (some ref) e h = elim (Bool-cases (ref.uid == s.uid)) [
  | inl same ↦
      let p : refs ≡ out = ground arith in
      (ref, ap get_controller_of (sym p) ∙ e, (eq_iff ref.uid s.uid).0 same)
  | inr differs ↦ absurd (ground arith)
]

pub libraries-IsLawful : IsLawful libraries
unfolding Controls
libraries-IsLawful = record {
  contains-nil = λ x. refl;
  contains-cons = λ x y xs. refl;
  without-nil = λ x. refl;
  without-cons = λ x y xs. refl;
  every-nil = λ xs. refl;
  every-cons = λ xs ys y. refl;
  empty_or_text_lem = λ v d. refl;
  empty_or_int_lem = λ v d. refl;
  empty_or_flag_lem = λ v d. refl;
  condition_set = set_status_condition-HasCondition;
  is_not_found-status = λ m. refl;
  is_not_found-other = λ m. refl;
  is_not_found-text = λ m. refl;
  is_not_found-wrap = λ m e. refl;
  new_aggregate_nil = new_aggregate-none;
  new_aggregate_all = new_aggregate-All;
  selects = selector_matches-Selects;
  selected = Selects-selector_matches;
  controls = λ s p _ refs h. own-Controls s p.owner_references refs _ refl h;
}
