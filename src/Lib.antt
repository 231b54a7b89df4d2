-- ===== src/Lib.antt =====
-- A model of kubewatch, the service by which Devtron follows what happens in its clusters, and
-- proofs of what it does.
--
-- Two programs share the repository. The server (main.go, App.go) starts the informers of
-- workflows and applications of pkg/controller/informer.go, which send their states on, and
-- builds the informers of pkg/informer: one of cluster secrets, which starts, restarts and
-- stops one informer of pods per cluster, and those of pods, which turn each update and
-- deletion of a workflow pod into a workflow status and publish it. The command line program
-- (cmd, config, pkg/client, pkg/handlers, pkg/controller, pkg/event) edits and reads a
-- configuration and chooses a handler such as Slack, which a controller of one kind of
-- resource is to tell of what it sees; the repository has no call that makes such a
-- controller.
--
-- The files and the code they model:
-- - Common and its children: lists, maps, texts, integers and results, with the lemmas that
--   the parts share. A Go map is a list of pairs, an int an integer without a bound, a
--   `time.Time` the nanoseconds since Go's zero time.
-- - Common/Strconv and Common/Wrap: strconv.Atoi with its error dropped, for an int of 64
--   bits, and the conversion to a machine integer.
-- - Pod, with Pod/Reason, Pod/Times and Pod/Status: assessNodeStatus of
--   pkg/informer/K8sInformer.go and all that it calls, function by function. A record holds
--   the fields that the code reads or writes. sort.Slice is a parameter that sorts
--   (`SortLaws`), Argo's predicates on phases are the record `Argo` with `ArgoLaws`, and
--   time.Now is a sequence of readings. Pod/Harmless, Failure, Verdict, Unordered, Pending,
--   Message and Assess hold the proofs on these; Verdict says which container of a failed pod
--   decides without an order of the slice (`Decides`), and Pending what a pending pod waits
--   for (`IsPendingReason`).
-- - Pod/Workflow: the two handlers of the pod informer in startSystemWorkflowInformer, with
--   getWorkflowStatus, getTopic, checkIfPodDeletedAndUpdateMessage and the publishing. The API
--   server is a function from namespace and name to its answer; marshalling is a parameter.
--   Proofs are in Pod/Workflow/Messages, Steps and Sending.
-- - Cluster: pkg/cluster/ClusterRepository.go over go-pg, a record of queries whose rows meet
--   their conditions (`PgLaws`).
-- - Informer and Informer/Events: the rest of K8sInformer.go. `Registry` is its state: the map
--   of stop channels, the channels made and closed, the informers started, the counter of
--   unreachable clusters. A panic is `none`, and an error made by errors.New has an address.
--   Each event carries the database as it stands at each query. Proofs are in
--   Informer/Events/Invariant, Start, Safety, Shutdown, View, Sync and Identity; View is the
--   registry with its map and its closed channels as functions, so that neither has an order.
--   Informer/Events/Spec is the abstract view, which clusters are watched, without channels;
--   Runs and Refinement relate the operations and the handlers to it, Service adds the start
--   of all informers, and Restart follows an event after the shutdown.
-- - Informer/Race: two calls of startSystemWorkflowInformer at once, each in two steps, the
--   look into the map with the making of the client and the last lines. A schedule is a list
--   of turns. Race/Same is about one cluster, Race/Apart about two. Race/Stops has two calls
--   of stopSystemWorkflowInformer at once, each in three steps (the look into the map, the
--   close, the delete), and the states that they reach; Stops/Twice is about one cluster,
--   Stops/Safe about two.
-- - Objects and Event: GetObjectMetaData of pkg/utils/k8sutil.go, and New and Message of
--   pkg/event/event.go. A constructor of `Object` is a Go type behind an interface{}. Proofs
--   are in Event/Messages.
-- - Controller: pkg/controller/controller.go, that is the handlers of an informer with the
--   variable that they share, and the worker. The queue of client-go is the record
--   `WorkQueue`, whose counting is stated in `WorkQueueLaws`. Controller/Worker is the loop of
--   the worker and Run, with what client-go documents of `Get` and `ShutDown` (`UpLaws`).
--   Controller/Queue has what client-go documents of the queue while it is up, with the events
--   that are dirty and those that are processed (`QueueLaws`), and the steps of the informer
--   and of the worker on it in any order (`Run`); Controller/Pending follows the list of the
--   events that wait and Controller/Taken an event in it. Proofs are in Controller/Namespaces,
--   Processing, Retries and Worker, and in Controller/Pipeline, from a notification to the
--   calls of the event handler.
-- - Config: config/config.go over files and yaml.v2, the record `Files`. Proofs are in
--   Config/Completed and Config/Saved.
-- - Handlers and its children Slack, Hipchat, Mattermost, Flock, Webhook and Choice:
--   pkg/handlers and pkg/client/run.go. What a handler gives is the call that it makes of its
--   client or of net/http (`Net`). Handlers/Told is the interface `Handler` over all of them.
--   Proofs are in Handlers/Selection, Handlers/Notices and Handlers/Delivery, the last two
--   across the controller, the events and Slack, and in Handlers/Told/Announced, from the
--   choice of a handler to its message.
-- - Commands: the commands of cmd that edit the configuration, from reading the file to
--   writing it; cobra's flags are the record `Flags`. Commands/Root is the root command and
--   config view of cmd/root.go and cmd/config.go. Commands/Tree is the tree of the commands,
--   the flags that their `init` functions declare, and what each command runs; cobra gives a
--   command the flags that are declared for it (`Serves`). Proofs are in Commands/Resources,
--   Settings, Root, Tree/Reads and Tree/Declared.
-- - Watch: pkg/controller/informer.go, that is which informers Start runs, and what the
--   handlers of workflows and applications send by REST or NATS. What the called packages
--   answer is the record `Surroundings`. Proofs are in Watch/Starting and Watch/Sending.
-- - App: main.go and App.go, that is what the server starts, and its shutdown. App/Wiring is
--   how it is put together (wire_gen.go, App.go), with what env.Parse makes of the environment
--   as the record `Parsed`. Proofs are in App/Lifetime and App/Wiring, and App/Whole is about
--   a run from `main` to the shutdown. App/Handshake has the last steps of the two goroutines
--   `main` and `Start` as a relation: the signal, the stop handed over a channel without a
--   buffer, the deferred closes, and the shutdown; Handshake/Ending bounds every run, and
--   Handshake/Whole joins it to `main`.
-- - Sql: pkg/sql/connection.go. A structure is the list of its fields with their tags, as
--   reflection shows it, and go-pg is the record `GoPg`. Proofs are in Sql/Secrets.
-- - Utils: pkg/utils, that is random names and the ways to a configuration of Kubernetes. The
--   host and the random source are records; an argument of the program is `-name=value`.
--   Proofs are in Utils/Random and Utils/Flags.
-- - Logger and Router: pkg/logger/Logger.go and api/router/router.go.
-- - Tests and its children: concrete inputs, instances of every interface with its laws, runs,
--   and instances of the theorems.
--
-- Every function is total by structural recursion. The decimal digits in Common/Text have as
-- fuel the number itself plus one, which is more than its digits. The loop of the worker in
-- Controller/Worker has fuel for its rounds: as long as no other goroutine shuts the queue
-- down, which `Run` does only when the loop has ended, none is enough, and the theorem on
-- `Run` says so. The runs of Controller/Queue have no fuel: they count the additions to the
-- queue and the steps of the worker.
--
-- Not modelled: log lines other than those of the connection to the database, the metrics
-- registry, the libraries behind net/http and the signals, of which the errors of `Shutdown`
-- and `Close` are inputs (`Closing`), a signal or a shutdown before the goroutine of
-- `App.Start` has set `app.server`, and the setup of viper in cmd/root.go, whose settings
-- nothing reads. Handlers run as a whole but in Informer/Race, where the steps of two starts
-- or of two stops interleave, and in App/Handshake, where those of `main` and `Start` do; a
-- concurrent write that makes the Go runtime end the program is not modelled there.
pub mod App
pub mod Cluster
pub mod Commands
pub mod Common
pub mod Config
pub mod Controller
pub mod Event
pub mod Handlers
pub mod Informer
pub mod Logger
pub mod Objects
pub mod Pod
pub mod Router
pub mod Sql
mod Tests
pub mod Utils
pub mod Watch
