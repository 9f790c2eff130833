-- ===== src/Lib.antt =====
-- The controllers of frp-provisioner, which expose Kubernetes services of type LoadBalancer through
-- frp servers: for each such service the manager keeps one frp client pod.
--
-- The parts, and the files that model them:
--   Api         pkg/api/v1beta1: the FrpServer resource and its constants
--   RefManager  pkg/utils/controller/refmanager.go: which pods a service owns, by adoption of orphans
--               and release of pods that its selector no longer matches
--   Service     pkg/controller/service_controller.go: Reconcile of a service. It lists the pods of the
--               service, claims them through the reference manager, and deletes, creates or finalizes
--   FrpClient   pkg/utils/frpclient/validate.go: the login that checks the configuration of a server
--   FrpServer   pkg/controller/frpserver_controller.go and frpserver_validator.go: the reconciler that
--               publishes in the status of a server whether the login succeeds, the defaults of a new
--               object, and the checks before an object is stored
--   Config      pkg/config and pkg/log/options.go: the options of the manager and of
--               its logger, their defaults, their checks and their flags
--   Flags       what it means to register and to set the flags of a command, and the abstract view of
--               flags as values by their names
--   Logger      pkg/log/factory.go: the logger of a context, the global one, and the making of one
--   Commands    cmd/manager, cmd/agent and pkg/server/agent.go: the flags of the two programs, the
--               configuration file and the precedence of the arguments over it, and the way from the
--               arguments to the start of the server
--   Copies      pkg/api/v1beta1/zz_generated.deepcopy.go: the deep copies of the API's types, on memory
--               with addresses, and the relation of what is stored with the value that it stands for
--   TaskManager pkg/safe/groutine.go: GoCtx and Close of the manager of goroutines, as a step relation on
--               the lock, the wait group and the places of any number of goroutines, and what Go does
--               with a panic
--   Startup     pkg/server/server.go and pkg/utils/fieldindex/register.go: the options, indexes,
--               controllers and checks with which the manager is put together
--   Prelude, Go, Kube   what they share: numbers and lists, Go's errors and results, the objects of
--               Kubernetes, its client, and the vendored libraries as parameters
--   Tests       runs at concrete inputs
--
-- How the code is modelled. A Go function that returns `(value, error)` is a function from the state to
-- a result and a state (Go.Monad); a result is a value, an error or a panic. A `defer` is a function on
-- the state that runs after the body, also on an error or a panic. The state (Kube.Server.World) holds
-- the state of the API server, which is unknown and may change at each request, the log of the requests
-- made, the `once` of the reference manager, and the files and connections that the process holds.
-- The operations of the client and of the vendored libraries are records of functions (Kube.Server,
-- Kube.Libraries, FrpClient.Outside, Startup.Defs, Flags.Defs, Logger, Commands.Run, Copies.Defs),
-- about which the theorems assume what is documented of them (IsLawful, KeepsIdentity, IsStore,
-- ParsesInOrder, IsCopying); Kube.Samples, Tests.Cluster, Tests.Steady, Tests.Lines and Tests.Copies
-- have instances that meet the assumptions. Loops over slices are structural recursion, so there is no
-- fuel. Go's integers are compared and never computed with, so they are unbounded. A pod that is
-- changed in place is a value that is returned, and only Copies has addresses, since sharing is all
-- that is at stake there. A flag that is bound to the address of a field is a pair of functions that
-- read and write the field.
--
-- Not modelled: log lines; registration of the API's types, of controllers and of
-- webhooks, which the libraries do; the usage texts of flags; the version and metrics that the build
-- and the libraries provide; the vendored libraries, which are parameters.
pub mod Prelude
pub mod Go
pub mod Kube
pub mod Api
pub mod RefManager
pub mod Service
pub mod FrpClient
pub mod FrpServer
pub mod Flags
pub mod Config
pub mod Logger
pub mod TaskManager
pub mod Startup
pub mod Commands
pub mod Copies
pub mod Tests
