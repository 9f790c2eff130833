-- ===== src/Kube/Server.antt =====
-- The client of the API server (`client.Client` of controller-runtime) over an unknown state, and the
-- calls that the program makes of it, in order.
use frp_provisioner.Prelude.{ℕ, String, List, [], ◌∷◌, ◌++◌, Option}
use frp_provisioner.Go.{StringMap, GoError, Result, M}
use frp_provisioner.Api.{FrpServer}
use frp_provisioner.Kube.Objects.{ObjectKey, ObjectMeta, Pod, Service}

-- Each call may change the state, also a read: other clients act in between.
pub record Client : Type 1 where
  pub State : Type 0
  pub get_service : ObjectKey → M State Service
  -- Get into an object of this kind: the part that every object has
  pub get_object : String → ObjectKey → M State ObjectMeta
  pub list_pods : String → StringMap → M State (List Pod)
  -- Create and Update write the answer of the server back into the object.
  pub create_pod : Pod → M State Pod
  pub update_pod : Pod → M State Pod
  pub delete_pod : Pod → M State (Unit {0})
  pub update_service : Service → M State Service
  pub get_frp_server : ObjectKey → M State FrpServer
  pub list_frp_servers : M State (List FrpServer)
  -- Status().Update
  pub update_status : FrpServer → M State FrpServer
  -- the data of a secret
  pub get_secret : ObjectKey → M State StringMap
  -- names.SimpleNameGenerator.GenerateName draws a random suffix
  pub generate_name : String → M State String

pub data Call : Type 0 where
  get_service : ObjectKey → Call
  get_object : String → ObjectKey → Call
  list_pods : String → StringMap → Call
  create_pod : Pod → Call
  update_pod : Pod → Call
  delete_pod : Pod → Call
  update_service : Service → Call
  get_frp_server : ObjectKey → Call
  list_frp_servers : Call
  update_status : FrpServer → Call
  get_secret : ObjectKey → Call

-- The server, the calls made so far, `once` with `canAdoptErr` of the reference manager that is in
-- use (none before `once.Do` ran), and what the process holds: the temporary files that it made and
-- for which it has not called Close and os.Remove, and its open connectors and connections to frp
-- servers.
pub record World (C : Client) : Type 0 where
  pub store : C.State
  pub calls : List Call
  pub once : Option (Option GoError)
  pub temp_files : List String
  pub connectors : ℕ
  pub connections : ℕ

module _ {C : Client} where
  abbrev pub after_call : {A : Type 0} → World C → Call → Result A × C.State → Result A × World C
  after_call w c (r, s) = (r, record w { store = s; calls = w.calls ++ c ∷ [] })

  -- One call, entered in the log.
  abbrev pub perform : {A : Type 0} → Call → M C.State A → M (World C) A
  perform c m w = after_call w c (m w.store)

  -- A step of the environment that is no call.
  abbrev pub silently : {A : Type 0} → M C.State A → M (World C) A
  silently m w = let (r, s) = m w.store in (r, record w { store = s })
