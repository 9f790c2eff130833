-- ===== src/Copies/Yields.antt =====
-- Commands whose result stands for a value, and goes on to whatever is written to older memory.
use mathlib.Core.List.{append_assoc, append-nil}
use frp_provisioner.Prelude.{
  List, [], ◌∷◌, ◌++◌, some, ℕ, zero, suc, length, length-append, ◌≡◌, refl, sym, ap,
}
use frp_provisioner.Copies.Heap.{Slot, Cmd, pure, ◌>>=◌, read, load, allocate}

module _ {C : Type 0} where
  -- Run in `old` and `made`, the command adds to them, and its result satisfies `P` in each memory that has
  -- `made` and what was added in the same place, after anything of the length of `old`.
  pub record Yields {A : Type 0} (old made : List C) (m : Cmd C A) (P : A → List C → Type 0)
      : Type 0 where
    pub result : A
    pub new : List C
    pub runs : m (old ++ made) ≡ some (result, old ++ (made ++ new))
    pub holds : (g tail : List C) → length g ≡ length old → P result (g ++ ((made ++ new) ++ tail))

  module _ {A : Type 0} (slot : Slot C A) (a : A) where
    read-append : (h t : List C) (p : ℕ) → read slot h p ≡ some a → read slot (h ++ t) p ≡ some a
    read-append [] t p found = absurd (cc)
    read-append (x ∷ h) t zero found = found
    read-append (x ∷ h) t (suc p) found = read-append h t p found

    read-length : (h t : List C) → read slot (h ++ slot.store a ∷ t) (length h) ≡ some a
    read-length [] t = slot.same a
    read-length (x ∷ h) t = read-length h t

  module _ {A : Type 0} {old made : List C} where
    pub pure-Yields :
        {a : A} → {P : A → List C → Type 0} → ((g : List C) → P a g) → Yields old made (pure a) P
    pure-Yields {a = a} h = record {
      result = a;
      new = [];
      runs = rw (append-nil made) refl;
      holds = λ g tail e. h _;
    }

    pub weaken :
        {m : Cmd C A}
        → {P Q : A → List C → Type 0} → Yields old made m P
        → ((a : A) (g : List C) → P a g → Q a g)
        → Yields old made m Q
    weaken y h = record {
      result = y.result;
      new = y.new;
      runs = y.runs;
      holds = λ g tail same. h _ _ (y.holds g tail same);
    }

    pub >>=-Yields :
        {B : Type 0}
        → {m : Cmd C A} → {f : A → Cmd C B} → {P : A → List C → Type 0} → {R : B → List C → Type 0}
        → Yields old made m P
        → ((a : A) (next : List C) → Yields old next (f a) (λ b g. P a g → R b g))
        → Yields old made (m >>= f) R
    >>=-Yields first then =
        let second = then first.result (made ++ first.new) in
        record {
          result = second.result;
          new = first.new ++ second.new;
          runs = rw (first.runs, sym (append_assoc made first.new second.new)) second.runs;
          holds = λ g tail same. rw (sym (append_assoc made first.new second.new)) (
              second.holds g tail same (
                rw (append_assoc (made ++ first.new) second.new tail)
                  (first.holds g (second.new ++ tail) same)));
        }

    pub load->>=-Yields :
        {B : Type 0}
        → {R : B → List C → Type 0} → (slot : Slot C A) (p : ℕ) (a : A) (f : A → Cmd C B)
        → read slot old p ≡ some a
        → Yields old made (f a) R
        → Yields old made (load slot p >>= f) R
    unfolding load
    load->>=-Yields slot p a f found rest = record {
      result = rest.result;
      new = rest.new;
      runs = rw (read-append slot a old made p found) rest.runs;
      holds = rest.holds;
    }

    pub allocate-Yields :
        (slot : Slot C A) (a : A)
        → Yields old made (allocate slot a) (λ p g. read slot g p ≡ some a)
    unfolding allocate
    allocate-Yields slot a = record {
      result = length (old ++ made);
      new = slot.store a ∷ [];
      runs = ap (λ h. some (length (old ++ made), h)) (append_assoc old made (slot.store a ∷ []));
      holds = λ g tail same.
          rw
            (
              length-append old made,
              sym same,
              sym (length-append g made),
              append_assoc made (slot.store a ∷ []) tail,
              sym (append_assoc g made (slot.store a ∷ tail)),
            )
            (read-length slot a (g ++ made) tail);
    }
