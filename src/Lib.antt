-- ===== src/Lib.antt =====
-- A verification library for the Substratus operator (repository substratusai/runbooks): a Kubernetes
-- operator that builds container images, trains models, loads datasets, serves models and runs
-- notebooks.
--
-- The parts and how they interact. Users write four custom resources, Model, Dataset, Server and
-- Notebook (api/v1). The build controller (internal/controller/build_reconciler.go) makes a builder
-- Job for an object's `build`, from git or from an uploaded tarball whose checksum the storage
-- confirms, and sets the object's image when the Job has succeeded. Once the image is set, the
-- controller of the object's kind (model_controller.go, dataset_controller.go, server_controller.go,
-- notebook_controller.go in internal/controller) sets up parameters and a service account, waits for
-- the objects it refers to, and applies a Job, a Deployment with a Service, or a Pod. All of them use a
-- cloud (internal/cloud: gcp or kind) for names, buckets and identities, and internal/resources for CPU,
-- memory and GPUs. The SCI service signs URLs, reads checksums and binds identities; on a kind cluster
-- it is also the HTTP server that takes the uploads (internal/sci/kind). The command line's terminal UI
-- (internal/tui) finds manifests, writes objects, and through the client (internal/client) uploads the
-- build context to the URL that the build controller put into the object's status. The client also
-- copies a notebook's files as containertools/cmd/nbwatch reports their changes.
--
-- The files.
--   Prelude         tests on numbers and texts, Go's maps, ToLower, TrimPrefix, and of Go's library
--                   filepath.Join, Dir and Rel (FilePath, Rel), encoding/hex, encoding/base64, and
--                   strconv (Decimal), with their round trips
--   Kube            the structs of the Kubernetes libraries, with the fields that the code uses;
--                   Kube/Containers: a change of the first container of a name
--   Api             api/v1: the four resources, their methods dispatched on a `Kind`, the reasons
--   Program         what a reconciler is: a tree of calls. `Calls` has one constructor per call of the
--                   API server, the SCI service and the clock, with the type of its answer; `Core` the
--                   sequencing, with early return (`halt`) and panic (`crash`); `Run` a run against an
--                   environment that answers each call from all that happened before; `Always` and
--                   `Only` the logic of what holds of each call in every environment, and
--                   `Reaches` of what a program comes to in one environment
--   Library         the third-party functions that the code relies on, a parameter of the model, with
--                   the documented law of meta.SetStatusCondition
--   Cloud           internal/cloud: Naming (common.go, utils.go), Principal, Mount and Configure
--                   (gcp.go, kind.go), and what is proved of them in Images, Hashes, Mounted and
--                   Configured
--   Resources       internal/resources: Gpu (gpu_info.go), Apply (resources.go), proofs in Applied
--   Controller      internal/controller: Status, Env (utils.go), Params (params_reconciler.go),
--                   ServiceAccounts (service_accounts_controller.go), Workload and Shared (the steps
--                   that the controllers repeat), and a module for each controller: Build, Models,
--                   Datasets, Servers, Notebooks, each with the constructors of its objects, its
--                   Reconcile in `Reconcile`, the proofs on its runs in `Steps` and `Runs` (for
--                   Build in Seen, Image, Still, Checked and Edges), and on its runs in a cluster that
--                   answers well in `Arrives` (with Uploads for Build). Sorts, Outcome, Needs and Willing hold
--                   lemmas on the shared steps; Accounts, Reports, Configured and Literals are on single
--                   steps. Watches is manager.go and the functions that map a changed object to
--                   requests, Woken what they wake
--   Net             readers and HTTP requests, which the client and the storage share
--   Sci             internal/sci/kind: Kind/Disk the file system, Kind/Server server.go; proofs in Paths,
--                   Stored and Contract, where the server implements an abstract store of checksums
--   Client          internal/client: Tarball and Upload (upload.go), Notebook (notebook.go), Sync and
--                   Tools (sync.go), Objects the objects of any kind; proofs in Delivered (the upload
--                   against the server of Sci), Waiting (the loop over the watch, against the build
--                   controller), Mirror and Reported (the sync against Nbwatch) and Installed
--   Nbwatch         containertools/cmd/nbwatch/main.go
--   Tui             internal/tui: Versions and Commands (common.go), Manifests, Scope (get.go), Delete,
--                   Apply, Process (the parts of a screen: manifests.go, upload.go, readiness.go), Run,
--                   Notebook; proofs in Fresh, Preferred, Deleted, InTurn, Applied, Seen, Sound, Ran
--                   and Guarded (the notebook screen)
--   Tests           a cluster of concrete objects, and each theorem applied to it
--
-- State. A reconciler keeps none between runs. Its state is the object that it read, which the model
-- passes on explicitly, updated as the server answers; the cluster's state is the environment, which
-- may answer anything at any time, as other clients may act in between. A call of CreateOrUpdate
-- carries the closure that it would run. The storage's state is its files, the client's world is a
-- state that its requests change, and a screen of the terminal UI is its model with the commands that
-- are still running, of which any may answer next.
--
-- Bounds. Programs are well-founded trees, so each run ends and there is no fuel; the loops of the
-- client and the terminal UI are structural on what they read. int64 fields are
-- bit patterns below 2^64, with products taken modulo 2^64 and comparison as signed numbers; int32
-- counts are natural numbers.
--
-- Not modelled: logging, contexts, the registration of watches (SetupWithManager), cloud.New (which
-- reads the process environment), the SCI servers for GCP and AWS and the REST clients of
-- internal/client, which are calls of third-party libraries, what the terminal UI draws and its other
-- screens, and the command line's flags. time.Now is a call. A regular expression is modelled by the
-- match that Go's engine prefers. The archive format and MD5 are parameters. Go maps are association
-- lists in insertion order. A file is found under its cleaned path; what the system refuses is a
-- parameter.
pub mod Prelude
pub mod Kube
pub mod Api
pub mod Program
pub mod Library
pub mod Cloud
pub mod Resources
pub mod Controller
pub mod Net
pub mod Nbwatch
pub mod Sci
pub mod Client
pub mod Tui
pub mod Tests
