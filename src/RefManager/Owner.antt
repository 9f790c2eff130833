-- ===== src/RefManager/Owner.antt =====
-- pkg/utils/controller/refmanager.go: the manager, and whether its owner may adopt.
use frp_provisioner.Prelude.{
  String, ◌<>◌, not, List, [], ◌∷◌, Option, none, some, ◌==◌, if◌then◌else◌,
}
use frp_provisioner.Go.{
  StringMap, GoError, text, M, pure, fail, crash, lift, Result, ok, err, panic, ◌>>=◌,
}
use frp_provisioner.Kube.{
  ObjectKey, ObjectMeta, Service, NewObject, client_object, plain_object, Machinery, Client, Call,
  World, perform,
}

pub record RefManager (L : Machinery) : Type 0 where
  pub selector : StringMap
  pub owner : Service
  -- nil if none
  pub schema : Option L.Scheme

-- `kinds[0]`
unfoldable pub first_kind : {S : Type 0} → List String → M S String
first_kind [] = crash "index out of range"
first_kind (kind ∷ _) = pure kind

-- `obj.(client.Object)`, with the kind that `Get` asks the server for.
unfoldable pub as_client_object : {S : Type 0} → ObjectMeta → NewObject → M S String
as_client_object owner (client_object kind) = pure kind
as_client_object owner (plain_object _) = fail (
    text (
      "can't get owner " <> owner.namespace <> "/" <> owner.name
      <> ": fail to cast to client.Object"))

-- A method call on a nil *runtime.Scheme.
unfoldable pub non_nil : {S A : Type 0} → Option A → M S A
non_nil none = crash "nil pointer dereference"
non_nil (some scheme) = pure scheme

module _ (L : Machinery) (C : Client) where
  -- A new manager, whose `once` has not run.
  unfoldable pub new_ref_manager :
      StringMap → Service → Option L.Scheme → M (World C) (RefManager L)
  new_ref_manager selector owner schema w =
      pure (record { selector = selector; owner = owner; schema = schema })
        (record w { once = none })

  -- The object that `getOwner` reads into, by its kind: everything up to the call of `Get`.
  unfoldable pub owner_kind : RefManager L → M (World C) String
  unfolding first_kind as_client_object non_nil
  owner_kind mgr = do
    schema ← non_nil mgr.schema
    kinds ← lift (L.object_kinds schema)
    kind ← first_kind kinds
    obj ← lift (L.scheme_new schema kind)
    as_client_object mgr.owner.metadata obj

  unfoldable pub read_owner : RefManager L → String → M (World C) ObjectMeta
  read_owner mgr kind =
      let key : ObjectKey = record { namespace = mgr.owner.namespace; name = mgr.owner.name } in
      perform (Call.get_object kind key) (C.get_object kind key)

  unfoldable pub get_owner : RefManager L → M (World C) ObjectMeta
  unfolding owner_kind read_owner
  get_owner mgr = owner_kind mgr >>= read_owner mgr

  unfoldable pub still_there : ObjectMeta → Option String → M (World C) (Unit {0})
  still_there owner none = pure tt
  still_there owner (some time) =
      fail (text (owner.namespace <> "/" <> owner.name <> " has just been deleted at " <> time))

  -- The checks of `canAdopt` on the fresh object.
  unfoldable pub check_fresh : ObjectMeta → ObjectMeta → M (World C) (Unit {0})
  unfolding still_there
  check_fresh owner fresh =
      if not (fresh.uid == owner.uid)
      then fail (
          text (
            "original owner " <> owner.namespace <> "/" <> owner.name <> " is gone: got uid "
            <> fresh.uid <> ", wanted " <> owner.uid))
      else still_there owner fresh.deletion_timestamp

  unfoldable pub can_adopt : RefManager L → M (World C) (Unit {0})
  unfolding get_owner check_fresh
  can_adopt mgr = get_owner mgr >>= check_fresh mgr.owner.metadata

  -- The end of `once.Do`, which counts as done also when the check panics: `canAdoptErr` is then
  -- still nil.
  unfoldable pub settle : Result (Unit {0}) × World C → Result (Option GoError) × World C
  settle (ok _, w) = (ok none, record w { once = some none })
  settle (err e, w) = (ok (some e), record w { once = some (some e) })
  settle (panic message, w) = (panic message, record w { once = some none })

  -- `once.Do`: the check runs at the first call, and its error is kept.
  unfoldable pub run_once : RefManager L → Option (Option GoError) → M (World C) (Option GoError)
  unfolding settle
  run_once mgr none w = settle (can_adopt mgr w)
  run_once mgr (some r) w = pure r w

  unfoldable pub can_adopt_once : RefManager L → M (World C) (Option GoError)
  unfolding run_once
  can_adopt_once mgr w = run_once mgr w.once w
