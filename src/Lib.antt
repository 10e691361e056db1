-- ===== src/Lib.antt =====
-- Verification library of Nautikus, the operator that runs workflows (Dags) on Kubernetes.
--
-- A `Dag` object lists tasks with dependencies. The controller reconciles it: it reads the states of
-- the tasks' pods through the runner (`syncStatus`), asks the scheduler for the tasks that may start
-- (`Schedule`), starts them through the runner, which finds the executor of the task's type in the
-- registry, and stores the status of the Dag.
--
-- The parts and the files that model them:
--
-- - Api: api/v1/dag_types.go. The types with the fields of the source. A type of the source that is a
--   string with constants is a data type with a constructor for each constant, one for the empty
--   string where the code uses it, and one for any further text.
-- - Errors: Go's `error` values; an operation that answers with a value and an error is a `Result`.
-- - Scheduler: internal/scheduler/interface.go and internal/scheduler/scheduler.go. `Defs` has
--   `schedule` (`Schedule`, one function for each of its loops), `can_schedule`,
--   `notify_task_started`, `notify_task_completed` and `get_active_task_count`; `Interfaces` has the
--   interfaces of schedulers and queues. `Readiness` and
--   `Limit` are about `Schedule`, `Counters` and `Notifications` about the two counters.
-- - Kube: the client of controller-runtime as a parameter. A call takes a cluster to an answer and the
--   cluster after the call. `Kube.Pods` is what Kubernetes documents of the pods while nobody else
--   writes to them: a deletion is graceful, so that the pod may stay for a while, and the server may set
--   the phase of a new pod. `Kube.Dags` is the same of the Dag objects, and `Kube.Server` what it
--   documents of the Dag objects when any call may fail; `Kube.Memory` is a cluster for which all three
--   hold.
-- - Executor: the interface of internal/executor/interface.go; `Executor.Registry` is
--   internal/executor/registry.go and `Executor.Pod` internal/executor/pod/executor.go.
-- - Runner: internal/runner/interface.go and internal/runner/runner.go: `run` and `get_status`.
-- - Controller: internal/controller/dag_controller.go. A `Session` is what a reconciliation works on:
--   its copy of the Dag, the shared scheduler and the cluster. `Sync` is `syncStatus`; `Reconcile` is
--   `Reconcile` and `updateDAGState`, of which `prepare` is everything between the read of the Dag and
--   the update of its status, and `conclude` the rest.
--   `Setup` is `SetupComponents`: the pointers of the reconciler and its runner to a registry, which they
--   share, are addresses in a heap. `Liveness` and its children are about rounds of reconciliations,
--   `Walks` takes `syncStatus` apart into single writes, and `Accounting`, `Balance` and
--   `Counterless` are about the scheduler's counters.
-- - Operator: the reconciler over all Dags of a cluster. `Step` is a reconciliation of any key, a restart,
--   which makes a new scheduler, or what others do between two reconciliations: they may do anything to
--   the pods, and create and delete Dags. Nobody edits the specification of a Dag that exists, the status
--   of a new Dag is empty, its task names are distinct, and a reconciliation works on the stored Dag, not
--   on an older copy of it. `History` is about a Dag over many steps.
-- - DeepCopies: api/v1/zz_generated.deepcopy.go over a heap, in which the slices and maps of a Dag are
--   addresses. `Memory` has the copies, `Values` what an object is worth, `Copied` and `Apart` are about
--   what a copy has in common with the Dag and what it does not share.
-- - Store: the interfaces of internal/store/interface.go, which nothing implements.
-- - Manager: cmd/manager/main.go. `Options` is what it makes of its flags, `Wiring` the components that it
--   builds and its exit status; `Runtime` is what controller-runtime answers.
-- - Connector: internal/connector/interface.go and internal/connector/registry.go. `Registry` has the
--   interfaces and the methods of the registry; what the connectors act on is the parameter `Systems`.
--   `Registrations` is about any sequence of registrations.
-- - Compiler: internal/compiler/compiler.go in `Defs` and cmd/dag-cli/main.go in `Cli`. `System` stands
--   for the files, the programs that are run, and the parsers of JSON and YAML; `Names` has what Go's
--   library does with paths, the cleaning of `filepath.Join` included. `Verdicts`, `Steps` and `Outputs` are about what it writes
--   and when it succeeds.
-- - Sdk: pkg/sdk/go/api.go and pkg/sdk/go/processing. `Defs` has the methods of `DAGBuilder` and
--   `ExecuteTask`; `Manifests` has processing/generator.go and both functions `Serve`. `Process` stands for
--   Go's runtime and the files, `marshal` for the encoder of JSON.
-- - Tests: the theorems at concrete values.
--
-- Bounds and loops: a loop of the source over a slice, a map or a directory tree is structural
-- recursion. The loops that count, over nine callers and over the positions of a text, recurse on the
-- rounds that are left; there is no other fuel. Go's `int` has 64 bits, and the two counters of the
-- scheduler wrap around; an index and the length of a slice cannot. A method of the scheduler and of a
-- registry holds its lock from its first statement to its last, so it is one step on the state. The
-- order in which Go ranges over a map is a parameter. The compiler's sources stay as they are while it
-- runs, and what a program prints depends on its command line alone.
--
-- Not modelled: the parsing of flags, logging, contexts and their deadlines, what controller-runtime
-- does, the registration of the API group (api/v1/groupversion_info.go), and the Python SDK
-- (pkg/sdk/python).
pub mod Prelude
pub mod Errors
pub mod Api
pub mod Scheduler
pub mod Kube
pub mod Executor
pub mod Runner
pub mod Connector
pub mod Compiler
pub mod Controller
pub mod Manager
pub mod Operator
pub mod Store
pub mod DeepCopies
pub mod Sdk
pub mod Tests
