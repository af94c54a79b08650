-- ===== src/Examples.antt =====
-- A small cluster and a job, on which the theorems are applied.
mod Workers
mod Claims
mod Clients
mod Clientsets
mod Jobs
mod Others
mod Complete
mod Copies
mod Filled
mod System
mod Tools
mod Startup
use mathlib.Core.List.{Memᴰ}
use caffe2_operator.Prelude.{
  ℕ, suc, String, ◌≡◌, refl, sym, ◌∙◌, inl, inr, Bool, true, false, ◌&&◌, Option, none, some, List,
  [], ◌∷◌, if◌then◌else◌, Option-cases,
}
use caffe2_operator.Prelude.Dict.{Dict, lookup, insert}
use caffe2_operator.Prelude.Int.{ℤ, pos}
use caffe2_operator.Prelude.Text.{◌<>◌}
use text.Mathlib.Text.{◌==◌}
use text.Mathlib.TextPositions.{eq_refl}
use caffe2_operator.Go.{Error, Result, ok, err, Outcome, returns, panics, Runs}
use caffe2_operator.Kube.{
  Time, Labels, get_label, OwnerReference, ObjectMeta, Container, PodTemplateSpec, Pod, no_meta,
  unset, succeeded,
}
use caffe2_operator.Api.Types.{
  Caffe2BackendSpec, ChiefSpec, TerminationPolicySpec, Caffe2ReplicaSpec, Caffe2JobSpec,
  Caffe2JobStatus, Caffe2Job,
}
use caffe2_operator.Controller.Cluster.{World, Cluster}
use caffe2_operator.Controller.Labels.{gen_labels, gen_owner_reference}
use caffe2_operator.Prelude.Decimal.{atoi}
use caffe2_operator.Controller.Slices.{index_of}
use caffe2_operator.Controller.Pods.Ready.{Ready}
use caffe2_operator.Controller.Pods.Creation.{IsWorker}
use caffe2_operator.Controller.Sync.{
  Controller, sync_caffe2_job, process_next_work_item, run_worker,
}
use caffe2_operator.Controller.Sync.Total.{AllReady, insert-AllReady}
use caffe2_operator.Controller.Sync.Claiming.{MatchesLabels, FindsController}

-- A text, and the same one.
is_value : String → Option String → Bool
is_value v none = false
is_value v (some u) = v == u

has_label : Dict String → Labels → String → Bool
unfolding is_value
has_label all labels key = elim (lookup key all) [
  | none ↦ true
  | some v ↦ is_value v (get_label key labels)
]

has_labels : Dict String → Labels → Dict String → Bool
unfolding has_label
has_labels all labels [] = true
has_labels all labels ((key, v) ∷ m) = has_label all labels key && has_labels all labels m

find_controller : List OwnerReference → Option OwnerReference
find_controller [] = none
find_controller (r ∷ rs) = elim (r.controller) [
  | none ↦ find_controller rs
  | some b ↦ if b then some r else find_controller rs
]

first_error : List Error → Option Error
first_error [] = none
first_error (e ∷ es) = some e

template : PodTemplateSpec
template = record {
  meta = no_meta;
  spec = record {
    containers = record { name = "c"; env = [] } ∷ [];
    restart_policy = "Never";
    node_name = "";
  };
}

replica : Caffe2ReplicaSpec
unfolding template
replica = record { replicas = some (pos 2); template = some template }

backend : Caffe2BackendSpec
backend = record { type = "redis"; nfs_path = ""; redis_host = "h"; redis_port = 6379 }

abbrev job_meta : ObjectMeta
job_meta = record no_meta { name = "job"; namespace = "ns"; uid = "u" }

abbrev no_status : Caffe2JobStatus
no_status = record {
  conditions = [];
  replica_statuses = none;
  start_time = none;
  completion_time = none;
  last_reconcile_time = none;
}

unfoldable job : Caffe2Job
unfolding replica backend
job = record {
  meta = job_meta;
  spec = record {
    runtime_id = "1";
    backend = some backend;
    replica_specs = some replica;
    termination_policy =
        some (record { chief = some (record { replica_name = "WORKER"; replica_index = pos 0 }) });
  };
  status = no_status;
}

unfoldable cluster : List Pod → Cluster
unfolding has_labels find_controller first_error job
cluster pods = record {
  key_func = λ m. ok (m.namespace <> "/" <> m.name);
  split_key = λ key. ok ("ns", "job");
  selector = λ wanted. ok (λ labels. has_labels wanted labels wanted);
  controller_of = find_controller;
  new_aggregate = first_error;
  name_is_dns_subdomain = λ name prefix. [];
  selects_everything = λ labels. elim labels [ none ↦ true | some m ↦ false ];
  clock = λ n. n;
  unix = λ t. pos t;
  time_text = λ t. "";
  list_pods = λ calls ns. ok pods;
  reply_get_job = λ calls ns name. ok job;
  reply_update_job = λ calls j. none;
  reply_patch_pod = λ calls ns name patch. none;
  reply_create_pod = λ calls ns pod. ok pod;
  reply_delete_pod = λ calls ns name. none;
  reply_create_service = λ calls ns service. ok service;
  reply_patch_service = λ calls ns name patch. none;
  next_item = λ q. elim q [ [] ↦ some "ns/job" | x ∷ xs ↦ none ];
}

job-Ready : Ready job.spec
unfolding job replica
job-Ready = record {
  spec = replica;
  replicas = 2;
  template = template;
  backend = backend;
  has_spec = refl;
  has_replicas = refl;
  has_template = refl;
  has_backend = refl;
}

abbrev start : World
start = record { calls = []; readings = 0 }

abbrev controller : Controller
controller = record { world = start; jobs = ("ns/job", job) ∷ []; queue = [] }

empty-AllReady : AllReady []
unfolding lookup
empty-AllReady key j h = absurd (none_some j h)
  where
    none_some : (j : Caffe2Job) → none ≡ some j → ⊥
    none_some j h = cc

controller-AllReady : AllReady controller.jobs
unfolding lookup insert
controller-AllReady = insert-AllReady "ns/job" job [] job-Ready empty-AllReady

-- The pod of replica 0, as `createNewPod` has it made.
worker : Pod
unfolding template job gen_labels gen_owner_reference
worker = record {
  meta = record no_meta {
    name = "w";
    namespace = "ns";
    labels = some (
        ("caffe2_replica_type", "worker")
        ∷ ("caffe2_replica_index", "0")
        ∷ gen_labels "1" "ns/job");
    owner_references = gen_owner_reference job ∷ [];
  };
  spec = template.spec;
  phase = succeeded;
}

worker-IsWorker : IsWorker job "ns/job" 0 worker
unfolding worker lookup index_of atoi gen_labels job
worker-IsWorker = record {
  at_index = refl;
  of_type = refl;
  of_group = refl;
  of_job = refl;
  of_run = refl;
  owner = refl;
}

-- The selector of the job.
selects : Labels → Bool
unfolding has_labels gen_labels
selects labels = has_labels (gen_labels "1" "ns/job") labels (gen_labels "1" "ns/job")

cluster-FindsController : (pods : List Pod) → FindsController (cluster pods)
unfolding cluster find_controller
cluster-FindsController pods ref h = simp (h, find_controller)

has_label-found :
    (all : Dict String) (labels : Labels) (key : String)
    → ((j v : String) → lookup j all ≡ some v → get_label j labels ≡ some v)
    → has_label all labels key ≡ true
unfolding has_label is_value
has_label-found all labels key h = elim (Option-cases (lookup key all)) [
  | inl e ↦ rw (e, has_label) refl
  | inr (v, e) ↦ rw (e, has_label) (rw (h key v e) (eq_refl v))
]

has_labels-found :
    (all : Dict String) (labels : Labels) (m : Dict String)
    → ((j v : String) → lookup j all ≡ some v → get_label j labels ≡ some v)
    → has_labels all labels m ≡ true
unfolding has_labels
has_labels-found all labels [] h = refl
has_labels-found all labels ((key, v) ∷ m) h =
    rw (has_label-found all labels key h) (has_labels-found all labels m h)

cluster-MatchesLabels : (pods : List Pod) → MatchesLabels (cluster pods)
unfolding cluster
cluster-MatchesLabels pods wanted f labels e h =
    rw (sym (same_test (λ labels. has_labels wanted labels wanted) f e))
      (has_labels-found wanted labels wanted h)
  where
    same_test : (f g : Labels → Bool) → ok f ≡ ok g → f ≡ g
    same_test f g e = cc
