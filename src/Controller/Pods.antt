-- ===== src/Controller/Pods.antt =====
-- Creating the missing pods of a job and counting the others: `createNewPod` and `reconcilePods` of
-- pkg/controller/controller_pod.go.
pub mod Creation
pub mod Tally
pub mod Ready
pub mod Total
pub mod Reports
pub mod Made
pub mod Effects
pub mod Converged
pub mod Requests
pub mod Filled
pub mod Undefaulted
use caffe2_operator.Prelude.{ℕ, ◌+◌, String, Option, none, some, List, [], ◌∷◌, ◌++◌, if◌then◌else◌}
use caffe2_operator.Prelude.Dict.{Dict, insert, insert_all}
use caffe2_operator.Prelude.Int.{ℤ, int_of_uint}
use caffe2_operator.Prelude.Decimal.{itoa, itoa_int}
use caffe2_operator.Prelude.Text.{is_empty}
use caffe2_operator.Go.{Error, is_timeout, ok, err, Outcome, returns, panics, ◌>>=◌, deref}
use caffe2_operator.Kube.{EnvVar, Container, PodTemplateSpec, Pod}
use caffe2_operator.Api.Types.{Caffe2BackendSpec, Caffe2ReplicaSpec, Caffe2Job}
use caffe2_operator.Controller.Cluster.{World, Cluster}
use caffe2_operator.Controller.PodControl.{create_pods_with_controller_ref}
use caffe2_operator.Controller.Labels.{
  caffe2_replica_type_label, caffe2_replica_index_label, gen_labels, gen_owner_reference,
}
use caffe2_operator.Controller.Config.{gen_caffe2_config_json_str}
use caffe2_operator.Controller.Slices.{get_pod_slices, filter_pods_for_caffe2_replica_type}
use caffe2_operator.Controller.Status.{
  Stage, initialize_replica_statuses, update_replica_statuses, increase_active, update_status,
}

-- The labels of a new pod: those of the job, its type and its index.
unfoldable pub worker_labels : String → String → String → String → Dict String
unfolding gen_labels
worker_labels id job_key rt index =
    insert caffe2_replica_index_label index
      (insert caffe2_replica_type_label rt (gen_labels id job_key))

-- `podTemplate.Labels`, made where it is nil, with the worker's labels put over it.
pub label_template : Dict String → PodTemplateSpec → PodTemplateSpec
label_template labels t = record t {
  meta = record t.meta {
    labels = some (insert_all labels (elim (t.meta.labels) [ none ↦ [] | some m ↦ m ]));
  };
}

abbrev env : String → String → EnvVar
env name value = record { name = name; value = value }

-- The six variables of every container.
unfoldable pub backend_env : Caffe2BackendSpec → ℤ → String → String → List EnvVar
backend_env b replicas index runtime_id =
    env "REDIS_HOST" b.redis_host
    ∷ env "REDIS_PORT" (itoa_int (int_of_uint b.redis_port))
    ∷ env "NFS_PATH" b.nfs_path
    ∷ env "SHARD_ID" index
    ∷ env "NUM_SHARDS" (itoa_int replicas)
    ∷ env "RUN_ID" runtime_id
    ∷ []

abbrev pub add_env : List EnvVar → Container → Container
add_env vars c = record c { env = c.env ++ vars }

-- The first loop over the containers; it dereferences `job.Spec.Backend` and `spec.Replicas`.
unfoldable pub add_backend_env :
    Caffe2Job → Caffe2ReplicaSpec → String → List Container → Outcome (List Container)
unfolding backend_env
add_backend_env job spec index [] = returns []
add_backend_env job spec index (c ∷ cs) = deref job.spec.backend >>= λ b.
    deref spec.replicas >>= λ replicas. add_backend_env job spec index cs >>= λ cs'.
    returns (add_env (backend_env b replicas index job.spec.runtime_id) c ∷ cs')

-- The second loop.
unfoldable pub add_config_env : String → List Container → List Container
add_config_env config [] = []
add_config_env config (c ∷ cs) =
    add_env (env "CAFFE2_CONFIG" config ∷ []) c ∷ add_config_env config cs

pub with_containers : PodTemplateSpec → List Container → PodTemplateSpec
with_containers t cs = record t { spec = record t.spec { containers = cs } }

-- A timeout of the creation is no error.
unfoldable pub forgive_timeout : Option Error × World → Option Error × World
forgive_timeout (none, w) = (none, w)
forgive_timeout (some e, w) = if is_timeout e then (none, w) else (some e, w)

module _ (k : Cluster) where
  -- What follows the configuration text.
  unfoldable pub create_configured :
      Caffe2Job → PodTemplateSpec → String → World → Outcome (Option Error × World)
  unfolding with_containers add_config_env forgive_timeout
  create_configured job t config w =
      if is_empty config
      then returns (none, w)
      else returns (
          forgive_timeout (
            create_pods_with_controller_ref k job.meta.namespace
              (with_containers t (add_config_env config t.spec.containers)) (some job.meta)
              (some (gen_owner_reference job)) w))

  unfoldable pub create_for_key :
      Caffe2Job
      → String
      → String
      → String
      → Caffe2ReplicaSpec
      → World
      → Outcome (Option Error × World)
  unfolding label_template add_backend_env with_containers create_configured
  create_for_key job job_key rt index spec w = deref spec.template >>= λ template.
      let t = label_template (worker_labels job.spec.runtime_id job_key rt index) template in
      add_backend_env job spec index t.spec.containers >>= λ cs.
      gen_caffe2_config_json_str k job rt index >>= λ config.
      create_configured job (with_containers t cs) config w

  -- `createNewPod`
  unfoldable pub create_new_pod :
      Caffe2Job → String → String → Caffe2ReplicaSpec → World → Outcome (Option Error × World)
  unfolding create_for_key
  create_new_pod job rt index spec w = elim (k.key_func job.meta) [
    | err e ↦ returns (some e, w)
    | ok job_key ↦ create_for_key job job_key rt index spec w
  ]

  unfoldable pub after_creation : Option Error × World → Caffe2Job → Outcome (Option Error × Stage)
  after_creation (some e, w) job = returns (some e, (job, w))
  after_creation (none, w) job = increase_active job >>= λ job'. returns (none, (job', w))

  -- One round of the loop of `reconcilePods`.
  unfoldable pub reconcile_slice :
      Caffe2ReplicaSpec → ℕ → List Pod → Stage → Outcome (Option Error × Stage)
  unfolding after_creation
  reconcile_slice spec index [] (job, w) =
      create_new_pod job "worker" (itoa index) spec w >>= λ r. after_creation r job
  reconcile_slice spec index (pod ∷ []) (job, w) =
      update_replica_statuses job pod >>= λ job'. returns (none, (job', w))
  reconcile_slice spec index (pod ∷ pod' ∷ pods) (job, w) = returns (none, (job, w))

  -- The next rounds, unless this one returned an error.
  unfoldable pub next :
      (Stage → Outcome (Option Error × Stage))
      → Option Error × Stage
      → Outcome (Option Error × Stage)
  next rest (some e, st) = returns (some e, st)
  next rest (none, st) = rest st

  -- The loop of `reconcilePods`, from index `i` on; it ends at the first error.
  unfoldable pub reconcile_slices :
      Caffe2ReplicaSpec → ℕ → List (List Pod) → Stage → Outcome (Option Error × Stage)
  reconcile_slices spec i [] st = returns (none, st)
  reconcile_slices spec i (slice ∷ slices) st =
      reconcile_slice spec i slice st >>= next (reconcile_slices spec (i + 1) slices)

  unfoldable pub finish : ℤ → Option Error × Stage → Outcome (Option Error × Stage)
  finish replicas (some e, st) = returns (some e, st)
  finish replicas (none, st) = update_status k replicas st

  -- `reconcilePods`
  unfoldable pub reconcile_pods :
      Caffe2Job → List Pod → Option Caffe2ReplicaSpec → World → Outcome (Option Error × Stage)
  unfolding finish
  reconcile_pods job pods replica_specs w = deref replica_specs >>= λ spec.
      deref spec.replicas >>= λ replicas.
      get_pod_slices (filter_pods_for_caffe2_replica_type k pods "worker") replicas >>= λ slices.
      reconcile_slices spec 0 slices (initialize_replica_statuses job, w) >>= finish replicas
