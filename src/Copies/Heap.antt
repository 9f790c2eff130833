-- ===== src/Copies/Heap.antt =====
-- Memory that is only ever added to, and commands that read it and add to it.
use frp_provisioner.Prelude.{List, [], ◌∷◌, ◌++◌, Option, none, some, ℕ, zero, suc, length, ◌≡◌}

-- One kind of cell.
pub record Slot (C A : Type 0) : Type 0 where
  pub store : A → C
  pub load : C → Option A
  pub same : (a : A) → load (store a) ≡ some a

module _ {A : Type 0} where
  abbrev pub get_elem? : List A → ℕ → Option A
  get_elem? [] n = none
  get_elem? (x ∷ xs) zero = some x
  get_elem? (x ∷ xs) (suc n) = get_elem? xs n

-- `none` is a panic.
abbrev pub Cmd : Type 0 → Type 0 → Type 0
Cmd C A = List C → Option (A × List C)

abbrev pub pure : {C A : Type 0} → A → Cmd C A
pure a h = some (a, h)

module _ {C A B : Type 0} where
  abbrev pub and_then : Option (A × List C) → (A → Cmd C B) → Option (B × List C)
  and_then none f = none
  and_then (some (a, h)) f = f a h

  infixl 5 ◌>>=◌
  abbrev pub ◌>>=◌ : Cmd C A → (A → Cmd C B) → Cmd C B
  ◌>>=◌ m f h = and_then (m h) f

module _ {C A : Type 0} where
  abbrev pub held : Slot C A → Option C → Option A
  held slot none = none
  held slot (some c) = slot.load c

  -- What the address holds, if it holds one of this kind.
  abbrev pub read : Slot C A → List C → ℕ → Option A
  read slot h p = held slot (get_elem? h p)

  abbrev pub loaded : Option A → Cmd C A
  loaded none h = none
  loaded (some a) h = some (a, h)

  -- `*p`
  unfoldable pub load : Slot C A → ℕ → Cmd C A
  load slot p h = loaded (read slot h p) h

  -- `new` or `make` at an address of its own, with what is written there
  unfoldable pub allocate : Slot C A → A → Cmd C ℕ
  allocate slot a h = some (length h, h ++ slot.store a ∷ [])
