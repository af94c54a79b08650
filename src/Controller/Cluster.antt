-- ===== src/Controller/Cluster.antt =====
-- What the controller calls and this repository does not implement: the API server, the informer
-- cache of pods, the clock, and functions of the vendored Kubernetes libraries. Each is a function
-- that the definitions take; an answer of the API server is a function of the calls made so far, so
-- that a `Cluster` stands for any behaviour of it. A `World` records the calls, the newest first.
use caffe2_operator.Prelude.{ℕ, suc, String, Bool, Option, List, ◌∷◌}
use caffe2_operator.Prelude.Dict.{Dict}
use caffe2_operator.Prelude.Int.{ℤ}
use caffe2_operator.Go.{Error, Result}
use caffe2_operator.Kube.{Time, Labels, OwnerReference, ObjectMeta, Pod, Service}
use caffe2_operator.Api.Types.{Caffe2Job}

pub data Call : Type 0 where
  -- the namespace, the name
  get_job : String → String → Call
  update_job : Caffe2Job → Call
  -- the namespace, the name, the patch
  patch_pod : String → String → String → Call
  create_pod : String → Pod → Call
  delete_pod : String → String → Call
  create_service : String → Service → Call
  patch_service : String → String → String → Call
  -- the type, the reason, the message of an event
  record_event : String → String → String → Call

-- What the controller does with its work queue.
pub data QueueOp : Type 0 where
  took added forgot done : String → QueueOp

pub record World : Type 0 where
  pub calls : List Call
  pub readings : ℕ

pub record Cluster : Type 0 where
  -- `cache.DeletionHandlingMetaNamespaceKeyFunc`, `cache.SplitMetaNamespaceKey`
  pub key_func : ObjectMeta → Result String
  pub split_key : String → Result (String × String)
  -- `metav1.LabelSelectorAsSelector` of `MatchLabels`, as its `Matches`
  pub selector : Dict String → Result (Labels → Bool)
  -- `metav1.GetControllerOf`
  pub controller_of : List OwnerReference → Option OwnerReference
  -- `utilerrors.NewAggregate`
  pub new_aggregate : List Error → Option Error
  -- `apimachineryvalidation.NameIsDNSSubdomain`
  pub name_is_dns_subdomain : String → Bool → List String
  -- `labels.Set.AsSelectorPreValidated().Empty()`
  pub selects_everything : Labels → Bool
  -- the clock by the number of earlier readings, `Unix()`, and a time as `%v` prints it
  pub clock : ℕ → Time
  pub unix : Time → ℤ
  pub time_text : Time → String
  -- the pods that the informer has of a namespace
  pub list_pods : List Call → String → Result (List Pod)
  pub reply_get_job : List Call → String → String → Result Caffe2Job
  pub reply_update_job : List Call → Caffe2Job → Option Error
  pub reply_patch_pod : List Call → String → String → String → Option Error
  pub reply_create_pod : List Call → String → Pod → Result Pod
  pub reply_delete_pod : List Call → String → String → Option Error
  pub reply_create_service : List Call → String → Service → Result Service
  pub reply_patch_service : List Call → String → String → String → Option Error
  -- `workQueue.Get()` after the operations on the queue so far; `none` where it shuts down
  pub next_item : List QueueOp → Option String

abbrev pub called : Call → World → World
called c w = record w { calls = c ∷ w.calls }

module _ (k : Cluster) where
  -- `metav1.Now()`
  abbrev pub now : World → Time × World
  now w = (k.clock w.readings, record w { readings = suc w.readings })

  abbrev pub get_job_from_server : String → String → World → Result Caffe2Job × World
  get_job_from_server ns name w = (k.reply_get_job w.calls ns name, called (get_job ns name) w)

  abbrev pub update_job_on_server : Caffe2Job → World → Option Error × World
  update_job_on_server job w = (k.reply_update_job w.calls job, called (update_job job) w)

  abbrev pub patch_pod_on_server : String → String → String → World → Option Error × World
  patch_pod_on_server ns name patch w =
      (k.reply_patch_pod w.calls ns name patch, called (patch_pod ns name patch) w)

  abbrev pub create_pod_on_server : String → Pod → World → Result Pod × World
  create_pod_on_server ns pod w = (k.reply_create_pod w.calls ns pod, called (create_pod ns pod) w)

  abbrev pub delete_pod_on_server : String → String → World → Option Error × World
  delete_pod_on_server ns id w = (k.reply_delete_pod w.calls ns id, called (delete_pod ns id) w)

  abbrev pub create_service_on_server : String → Service → World → Result Service × World
  create_service_on_server ns service w =
      (k.reply_create_service w.calls ns service, called (create_service ns service) w)

  abbrev pub patch_service_on_server : String → String → String → World → Option Error × World
  patch_service_on_server ns name patch w =
      (k.reply_patch_service w.calls ns name patch, called (patch_service ns name patch) w)
