-- ===== src/Go/Maps.antt =====
-- `map[string]string` as an association list.
use frp_provisioner.Prelude.{
  String, List, [], ◌∷◌, Option, none, some, ◌==◌, eq_iff, ◌≡◌, refl, arith, if◌then◌else◌,
}

abbrev pub StringMap : Type 0
StringMap = List (String × String)

-- `v, ok := m[k]`
unfoldable pub lookup : String → StringMap → Option String
lookup k [] = none
lookup k ((j, v) ∷ m) = if j == k then some v else lookup k m

-- `m[k]`, which is "" where the key is missing
unfoldable pub value_or_empty : String → StringMap → String
value_or_empty k m = elim (lookup k m) [ none ↦ "" | some v ↦ v ]

-- `m[k] = v`
unfoldable pub insert : String → String → StringMap → StringMap
insert k v [] = (k, v) ∷ []
insert k v ((j, w) ∷ m) = if j == k then (k, v) ∷ m else (j, w) ∷ insert k v m

pub lookup-insert :
    (j k v : String) (m : StringMap)
    → lookup j (insert k v m) ≡ (if k == j then some v else lookup j m)
unfolding lookup insert
lookup-insert j k v [] = refl
lookup-insert j k v ((i, w) ∷ m) =
    ground (arith, eq_iff k j, eq_iff i k, eq_iff i j, lookup-insert j k v m)
