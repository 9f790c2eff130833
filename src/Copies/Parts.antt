-- ===== src/Copies/Parts.antt =====
-- The copies of the parts of a FrpServer, and what they stand for.
use frp_provisioner.Prelude.{List, [], ◌∷◌, Option, none, some, ℕ, map, ◌≡◌, refl, ◌∙◌}
use frp_provisioner.Go.{StringMap, lookup, lookup-insert}
use frp_provisioner.Kube.{Condition}
use frp_provisioner.Api.{
  FrpServerAuthOidc, FrpServerAuth, FrpServerTransportTls, FrpServerTransport, FrpServerSpec,
  FrpServerStatus,
}
use frp_provisioner.Copies.Stored.{
  Ref, StoredOidc, StoredAuth, StoredTls, StoredTransport, StoredSpec, StoredStatus,
}
use frp_provisioner.Copies.Heap.{Slot, Cmd, pure, read}
use frp_provisioner.Copies.Cells.{
  flag_slot, secret_slot, texts_slot, entries_slot, conditions_slot, references_slot, oidc_slot,
  quic_slot,
}
use frp_provisioner.Copies.Defs.{
  MetaLibrary, Memory, copy_unless_nil, copy_entries, copy_oidc, copy_auth, copy_tls,
  copy_transport, copy_spec, copy_status,
}
use frp_provisioner.Copies.Stands.{
  Refers, IsTarget, IsSame, SameEntries, StandsOidc, StandsAuth, StandsTls, StandsTransport,
  StandsSpec, StandsStatus,
}
use frp_provisioner.Copies.Yields.{
  Yields, pure-Yields, weaken, >>=-Yields, load->>=-Yields, allocate-Yields,
}

module _ {C A V : Type 0} (slot : Slot C A) (f : A → Cmd C A) (Stands : List C → A → V → Type 0)
    (empty v : V) (old : List C) where
  pub copy_unless_nil-some :
      (made : List C) (p : ℕ) (a : A)
      → read slot old p ≡ some a
      → Stands old a v
      → ((a : A) (next : List C) → Stands old a v → Yields old next (f a) (λ b g. Stands g b v))
      → Yields old made
          (copy_unless_nil slot f (some p))
          (λ q g. (r : ℕ) × (q ≡ some r) × (b : A) × (read slot g r ≡ some b) × Stands g b v)
  unfolding copy_unless_nil
  copy_unless_nil-some made p a found stands copies = load->>=-Yields slot p a _ found (
      >>=-Yields (copies a made stands) (λ b next.
        >>=-Yields (allocate-Yields slot b)
          (λ q last. pure-Yields {a = some q} (λ g there meant. (q, refl, b, there, meant)))))

  pub copy_unless_nil-Yields :
      (made : List C) (p : Ref)
      → Refers slot (Stands old) empty old p v
      → ((a : A) (next : List C) → Stands old a v → Yields old next (f a) (λ b g. Stands g b v))
      → Yields old made (copy_unless_nil slot f p) (λ q g. Refers slot (Stands g) empty g q v)
  unfolding copy_unless_nil
  copy_unless_nil-Yields made none nil copies = pure-Yields (λ g. nil)
  copy_unless_nil-Yields made (some p) (a, found, stands) copies =
      weaken (copy_unless_nil-some made p a found stands copies)
        (λ q g (r, e, b, there, meant). rw e (b, there, meant))

map-same : {A : Type 0} → {f : A → A} → ((a : A) → f a ≡ a) → (l : List A) → map f l ≡ l
map-same h [] = refl
map-same h (a ∷ l) = rw (h a, map-same h l) refl

copy_entries-SameEntries : (m : StringMap) → SameEntries (copy_entries m) m
unfolding copy_entries lookup
copy_entries-SameEntries [] k = refl
copy_entries-SameEntries ((j, x) ∷ m) k =
    rw (lookup-insert k j x (copy_entries m), copy_entries-SameEntries m k) refl

module _ {C : Type 0} (old made : List C) (p : Ref) where
  -- Elements that are copied by assignment
  flat :
      {A V : Type 0}
      → (slot : Slot C A) (Stands : A → V → Type 0) (empty v : V) → Refers slot Stands empty old p v
      → Yields old made (copy_unless_nil slot pure p) (λ q g. Refers slot Stands empty g q v)
  flat slot Stands empty v h =
      copy_unless_nil-Yields slot pure (λ _. Stands) empty v old made p h
        (λ a next meant. pure-Yields (λ g. meant))

  entries :
      (slot : Slot C StringMap) (v : StringMap)
      → Refers slot SameEntries [] old p v
      → Yields old made
          (copy_unless_nil slot (λ m. pure (copy_entries m)) p)
          (λ q g. Refers slot SameEntries [] g q v)
  entries slot v h =
      copy_unless_nil-Yields slot (λ m. pure (copy_entries m)) (λ _. SameEntries) [] v old made p h
        (λ m next same. pure-Yields (λ g k. copy_entries-SameEntries m k ∙ same k))

  -- A pointer to a struct that has a copy of its own
  pointer :
      {A V : Type 0}
      → (slot : Slot C A) (Stands : List C → A → V → Type 0) (f : A → Cmd C A) (v : Option V)
      → Refers slot (IsTarget (Stands old)) none old p v
      → ((a : A) (x : V) (next : List C)
          → Stands old a x
          → Yields old next (f a) (λ b g. Stands g b x))
      → Yields old made
          (copy_unless_nil slot f p)
          (λ q g. Refers slot (IsTarget (Stands g)) none g q v)
  pointer slot Stands f v h copies =
      copy_unless_nil-Yields slot f (λ g. IsTarget (Stands g)) none v old made p h
        (λ a next (x, e, meant). weaken (copies a x next meant) (λ b g there. (x, e, there)))

module _ (L : MetaLibrary) {old : List (Memory L)} where
  copy_oidc-Yields :
      (a : StoredOidc) (v : FrpServerAuthOidc) (made : List (Memory L))
      → StandsOidc L old a v
      → Yields old made (copy_oidc L a) (λ b g. StandsOidc L g b v)
  unfolding copy_oidc
  copy_oidc-Yields a v made (plain, params) =
      >>=-Yields (entries old made _ entries_slot _ params)
        (λ q next. pure-Yields (λ g meant. (plain, meant)))

  copy_auth-Yields :
      (a : StoredAuth) (v : FrpServerAuth) (made : List (Memory L))
      → StandsAuth L old a v
      → Yields old made (copy_auth L a) (λ b g. StandsAuth L g b v)
  unfolding copy_auth
  copy_auth-Yields a v made (plain, scopes, oidc) =
      >>=-Yields (flat old made _ texts_slot IsSame [] _ scopes) (λ q next.
        >>=-Yields (pointer old next _ oidc_slot (StandsOidc L) _ _ oidc copy_oidc-Yields)
          (λ r last. pure-Yields (λ g second first. (plain, first, second))))

  copy_tls-Yields :
      (a : StoredTls) (v : FrpServerTransportTls) (made : List (Memory L))
      → StandsTls L old a v
      → Yields old made (copy_tls L a) (λ b g. StandsTls L g b v)
  unfolding copy_tls
  copy_tls-Yields a v made (plain, secret, disable) =
      >>=-Yields (flat old made _ secret_slot (IsTarget IsSame) none _ secret) (λ q next.
        >>=-Yields (flat old next _ flag_slot (IsTarget IsSame) none _ disable)
          (λ r last. pure-Yields (λ g second first. (plain, first, second))))

  copy_transport-Yields :
      (a : StoredTransport) (v : FrpServerTransport) (made : List (Memory L))
      → StandsTransport L old a v
      → Yields old made (copy_transport L a) (λ b g. StandsTransport L g b v)
  unfolding copy_transport
  copy_transport-Yields a v made (plain, mux, quic, tls) =
      >>=-Yields (flat old made _ flag_slot (IsTarget IsSame) none _ mux) (λ q next.
        >>=-Yields (flat old next _ quic_slot (IsTarget IsSame) none _ quic) (λ r further.
          >>=-Yields (copy_tls-Yields a.tls v.tls further tls)
            (λ t last. pure-Yields (λ g third second first. (plain, first, second, third)))))

  pub copy_spec-Yields :
      (a : StoredSpec) (v : FrpServerSpec) (made : List (Memory L))
      → StandsSpec L old a v
      → Yields old made (copy_spec L a) (λ b g. StandsSpec L g b v)
  unfolding copy_spec
  copy_spec-Yields a v made (plain, auth, ips, fail_exit, transport, metadatas) =
      >>=-Yields (copy_auth-Yields a.auth v.auth made auth) (λ b made₁.
        >>=-Yields (flat old made₁ _ texts_slot IsSame [] _ ips) (λ c made₂.
          >>=-Yields (flat old made₂ _ flag_slot (IsTarget IsSame) none _ fail_exit) (λ d made₃.
            >>=-Yields (copy_transport-Yields a.transport v.transport made₃ transport) (λ e made₄.
              >>=-Yields (entries old made₄ _ entries_slot _ metadatas)
                (λ f made₅. pure-Yields (λ g v w x y z. (plain, z, y, x, w, v)))))))

  pub copy_status-Yields :
      (lawful : (c : Condition) → L.copy_condition c ≡ c)
      → (a : StoredStatus) (v : FrpServerStatus) (made : List (Memory L)) → StandsStatus L old a v
      → Yields old made (copy_status L a) (λ b g. StandsStatus L g b v)
  unfolding copy_status
  copy_status-Yields lawful a v made (plain, conditions, references) =
      >>=-Yields
        (copy_unless_nil-Yields conditions_slot _ (λ _. IsSame) [] _ old made a.conditions
          conditions (λ cs next same. pure-Yields (λ g. map-same lawful cs ∙ same)))
        (λ q next.
          >>=-Yields (flat old next _ references_slot IsSame [] _ references)
            (λ r last. pure-Yields (λ g second first. (plain, first, second))))
