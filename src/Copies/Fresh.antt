-- ===== src/Copies/Fresh.antt =====
-- The copies of the objects share no memory with the originals.
use mathlib.Core.List.{append-nil}
use frp_provisioner.Prelude.{List, [], ◌∷◌, ◌++◌, Option, some, ℕ, length, ◌≡◌, refl, sym, ap, ◌∙◌}
use frp_provisioner.Kube.{ObjectMeta, Condition}
use frp_provisioner.Api.{FrpServer}
use frp_provisioner.Copies.Stored.{TypeMeta, StoredServer, StoredList}
use frp_provisioner.Copies.Heap.{read}
use frp_provisioner.Copies.Cells.{servers_slot, server_slot, server_list_slot}
use frp_provisioner.Copies.Defs.{MetaLibrary, Memory, copy_server, copy_servers, copy_list}
use frp_provisioner.Copies.Objects.{
  Object, server, server_list, deep_copy_server, deep_copy_list, deep_copy_object,
}
use frp_provisioner.Copies.Stands.{Meanings, StandsServer, StandsServers, StandsList}
use frp_provisioner.Copies.Yields.{Yields, pure-Yields, >>=-Yields}
use frp_provisioner.Copies.Parts.{
  copy_unless_nil-some, copy_unless_nil-Yields, copy_spec-Yields, copy_status-Yields,
}

-- DeepCopyInto of the API machinery's: the copy stands for what the original does, in memory of its own,
-- and a copied condition is the same.
pub record IsCopying (L : MetaLibrary) (K : Meanings L) : Type 0 where
  pub copies_meta :
      (old made : List (Memory L)) (a : L.Meta) (v : ObjectMeta)
      → K.StandsMeta old a v
      → Yields old made (L.copy_meta a) (λ b g. K.StandsMeta g b v)
  pub copies_list_meta :
      (old made : List (Memory L)) (a : L.ListMeta) (v : K.Listing)
      → K.StandsListMeta old a v
      → Yields old made (L.copy_list_meta a) (λ b g. K.StandsListMeta g b v)
  pub same_condition : (c : Condition) → L.copy_condition c ≡ c

-- What an object is in the terms of the API.
pub data Value (Listing : Type 0) : Type 0 where
  one : TypeMeta → FrpServer → Value Listing
  many : TypeMeta → Listing → List (TypeMeta × FrpServer) → Value Listing

module _ (L : MetaLibrary) (K : Meanings L) where
  abbrev pub StandsObject : List (Memory L) → Object → Value K.Listing → Type 0
  StandsObject h (server p) v =
      (q : ℕ) × (p ≡ some q)
      × (a : StoredServer L.Meta) × (read server_slot h q ≡ some a)
      × (kind : TypeMeta) × (x : FrpServer) × (v ≡ one kind x)
      × StandsServer L K h a (kind, x)
  StandsObject h (server_list p) v =
      (q : ℕ) × (p ≡ some q)
      × (a : StoredList L.ListMeta) × (read server_list_slot h q ≡ some a)
      × (kind : TypeMeta) × (l : K.Listing) × (xs : List (TypeMeta × FrpServer)) × (v
          ≡ many kind l xs)
      × StandsList L K h a (kind, l, xs)

  -- The command returned an object, which stands for the value.
  abbrev IsObject : Value K.Listing → Option Object → List (Memory L) → Type 0
  IsObject v c h = (d : Object) × (c ≡ some d) × StandsObject h d v

module _ (L : MetaLibrary) (K : Meanings L) (lawful : IsCopying L K) {old : List (Memory L)} where
  copy_server-Yields :
      (a : StoredServer L.Meta) (v : TypeMeta × FrpServer) (made : List (Memory L))
      → StandsServer L K old a v
      → Yields old made (copy_server L a) (λ b g. StandsServer L K g b v)
  unfolding copy_server
  copy_server-Yields a (kind, v) made (same, metadata, spec, status) =
      >>=-Yields (lawful.copies_meta old made a.metadata v.metadata metadata) (λ b next.
        >>=-Yields (copy_spec-Yields L a.spec v.spec next spec) (λ c further.
          >>=-Yields (copy_status-Yields L lawful.same_condition a.status v.status further status)
            (λ d last. pure-Yields (λ g third second first. (same, first, second, third)))))

  copy_servers-Yields :
      (l : List (StoredServer L.Meta)) (vs : List (TypeMeta × FrpServer)) (made : List (Memory L))
      → StandsServers L K old l vs
      → Yields old made (copy_servers L l) (λ b g. StandsServers L K g b vs)
  unfolding copy_servers
  copy_servers-Yields [] vs made nil = pure-Yields (λ g. nil)
  copy_servers-Yields (a ∷ l) vs made (v, ws, split, first, rest) =
      >>=-Yields (copy_server-Yields a v made first) (λ b next.
        >>=-Yields (copy_servers-Yields l ws next rest)
          (λ bs last. pure-Yields {a = b ∷ bs} (λ g after before. (v, ws, split, before, after))))

  copy_list-Yields :
      (a : StoredList L.ListMeta) (v : TypeMeta × K.Listing × List (TypeMeta × FrpServer))
      (made : List (Memory L))
      → StandsList L K old a v
      → Yields old made (copy_list L a) (λ b g. StandsList L K g b v)
  unfolding copy_list
  copy_list-Yields a (kind, listing, vs) made (same, metadata, items) =
      >>=-Yields (lawful.copies_list_meta old made a.metadata listing metadata) (λ b next.
        >>=-Yields
          (copy_unless_nil-Yields servers_slot (copy_servers L) (StandsServers L K) [] vs old next
            a.items items (λ l last stands. copy_servers-Yields l vs last stands))
          (λ c last. pure-Yields (λ g second first. (same, first, second))))

  deep_copy_object-Yields :
      (o : Object) (v : Value K.Listing)
      → StandsObject L K old o v
      → Yields old [] (deep_copy_object L o) (IsObject L K v)
  unfolding deep_copy_object deep_copy_server deep_copy_list
  deep_copy_object-Yields (server p) v (q, at, a, found, kind, x, e, stands) = rw at (
      >>=-Yields
        (copy_unless_nil-some server_slot (copy_server L) (StandsServer L K) (kind, x) (kind, x) old
          [] q a found stands (λ b next meant. copy_server-Yields b (kind, x) next meant))
        (λ c last. pure-Yields (λ g (r, made, b, there, meant).
          rw made (server (some r), refl, (r, refl, b, there, kind, x, e, meant)))))
  deep_copy_object-Yields (server_list p) v (q, at, a, found, kind, l, xs, e, stands) = rw at (
      >>=-Yields
        (copy_unless_nil-some server_list_slot (copy_list L) (StandsList L K) (kind, l, xs)
          (kind, l, xs) old [] q a found stands
          (λ b next meant. copy_list-Yields b (kind, l, xs) next meant))
        (λ c last. pure-Yields (λ g (r, made, b, there, meant).
          rw made (server_list (some r), refl, (r, refl, b, there, kind, l, xs, e, meant)))))

-- DeepCopyObject of a FrpServer or of a list of them, given that DeepCopyInto of the metadata copies them
-- and that of a condition keeps it: if the object that the pointer leads to stands for a value, then
-- nothing panics, nothing that was stored is changed, and the copy that is returned stands for the same
-- value, also after anything at all is written over what was stored before and more is stored behind it.
pub deep_copy_object-StandsObject :
    (L : MetaLibrary) (K : Meanings L)
    → IsCopying L K
    → (old : List (Memory L)) (o : Object) (v : Value K.Listing) → StandsObject L K old o v
    → (c : Object) × (new : List (Memory L)) × (deep_copy_object L o old
        ≡ some (some c, old ++ new))
      × ((written more : List (Memory L))
          → length written ≡ length old
          → StandsObject L K (written ++ (new ++ more)) c v)
deep_copy_object-StandsObject L K lawful old o v stands =
    let y = deep_copy_object-Yields L K lawful o v stands in
    let (c, is_c, _) = y.holds old [] refl in
    (
      c,
      y.new,
      ap (deep_copy_object L o) (sym (append-nil old))
          ∙ y.runs
          ∙ ap (λ d. some (d, old ++ y.new)) is_c,
      λ written more same.
          let (d, is_d, meant) = y.holds written more same in
          let same_object : c ≡ d = cc in rw same_object meant,
    )
