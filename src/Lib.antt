-- ===== src/Lib.antt =====
-- The Caffe2 operator: a Kubernetes controller that runs a `Caffe2Job` as a set of worker pods.
--
-- The program's parts. The informers call the event handlers (pkg/controller/controller.go,
-- controller_pod.go), which write defaults and conditions to the jobs of the cache and add keys to a
-- work queue. A worker takes a key (`processNextWorkItem`), syncs its job (`syncCaffe2Job`): it claims
-- the pods of the job (controller_ref_manager.go), creates the missing ones (controller_pod.go,
-- controller_utils.go, config.go), counts the others and writes the status of the job (status.go). The
-- types, defaults and validation of a job are in pkg/apis/caffe2.
--
-- The files.
--   Prelude     shared names, lists, integers, decimal numbers (`strconv`), dictionaries.
--   Go          errors, panics, and what holds of a call that returns.
--   Kube        the Kubernetes objects, as far as the operator reads or writes them.
--   Api         pkg/apis/caffe2/v1alpha1/types.go, register.go, defaults.go and
--               zz_generated.defaults.go; Api.Validation is pkg/apis/caffe2/validation/validation.go.
--   Api.Memory, Api.DeepCopy   the same types as a heap holds them, with pointers as addresses, and
--               pkg/apis/caffe2/v1alpha1/zz_generated.deepcopy.go on it.
--   Controller.Cluster     the API server, the informer cache of pods, the clock and the vendored
--               functions: a record of functions that each definition takes.
--   Controller.RefManager  `ClaimObject`, `ClaimPods`, `AdoptPod`, `ReleasePod`, `CanAdopt`.
--   Controller.PodControl  `RealPodControl` and `GetPodFromTemplate`.
--   Controller.ServiceControl, Controller.ServiceRefManager   the same for services.
--   Controller.Labels, Controller.Config   labels, owner references, the CAFFE2_CONFIG text.
--   Controller.Config.Reader, Arrays and Document   a reader of JSON, to compare the text with.
--   Controller.Slices, Controller.Pods     `getPodSlices`, `createNewPod`, `reconcilePods`.
--   Controller.Status, Controller.Conditions   the counters and the conditions of a job.
--   Controller.Sync, Controller.Events     the worker's loop and the event handlers.
--   Controller.New         `New`: the handlers that it gives to the informers.
--   Controller.System      the writes of the informer to its cache, the notifications of the handlers, and
--                          the rounds of the workers, in any order.
--   Controller.ServiceControl.Fake   `FakeServiceControl`.
--   Client.Interface, Typed and Fake   `Caffe2JobInterface` and its two implementations, in
--               pkg/client/clientset/versioned/typed/kubeflow/v1alpha1, with the store of jobs that
--               both of them stand for.
--   Client.Clientset       pkg/client/clientset/versioned/clientset.go and kubeflow_client.go.
--   Client.Factory, Client.Informers   pkg/client/informers/externalversions.
--   Command     cmd/caffe2-operator/app/server.go, `Controller.Run`, and `GetClusterConfig` and
--               its callers in pkg/util/k8sutil/k8sutil.go.
--   Util        pkg/util/retryutil/retry_util.go, `RandString` of pkg/util/util.go, and the helpers of
--               pkg/util/k8sutil/k8sutil.go and pkg/apis/caffe2/helper/helpers.go.
--   Examples    a small cluster, on which the theorems are applied.
--
-- How state is modelled. A `World` is the list of the calls made to the API server, and the number
-- of readings of the clock; the answers of the server are functions of the earlier calls, so a
-- `Cluster` stands for any behaviour of it, errors included. A `Controller` is a world, the cache
-- of jobs and the operations on the work queue; a job that a handler or a sync changes in memory is
-- changed in the cache, as the pointers of the source do; the notification of a new job comes after
-- the informer has put it into the cache, and says whether the cache still holds that object. A nil
-- dereference and a negative length are panics.
--
-- Bounds. An `int32` counter wraps around (`inc32`); theorems on counters assume a number of
-- replicas below 2 ^ 31, which the type of the field gives. Indexes are below 2 ^ 63 for
-- `strconv.Atoi`. `run_worker` takes the number of items as fuel, and its theorem holds for every
-- number. `RandString` takes fuel too, and its theorem says how much is enough for a source.
--
-- Not modelled: log lines, the metrics, the interleaving of the steps inside handlers and syncs, the
-- scheduling of the work queue, the fake clientset, the registration of the types with the scheme, the
-- parsing of flags, and the leader election itself.
pub mod Prelude
pub mod Go
pub mod Kube
pub mod Api
pub mod Controller
pub mod Util
pub mod Client
pub mod Command
pub mod Examples
