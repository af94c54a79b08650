-- ===== src/Controller/Pods/Undefaulted.antt =====
-- What becomes of a job that has not been given its defaults.
use caffe2_operator.Prelude.{suc, String, ◌≡◌, refl, none, some, ◌∷◌, ℕ, List, []}
use caffe2_operator.Prelude.Int.{pos}
use caffe2_operator.Prelude.Decimal.{itoa}
use caffe2_operator.Go.{ok, panics, nil_dereference, deref-then, panics-then}
use caffe2_operator.Kube.{Pod, PodTemplateSpec, Container}
use caffe2_operator.Api.Types.{Caffe2ReplicaSpec, Caffe2Job}
use caffe2_operator.Controller.Cluster.{World, Cluster}
use caffe2_operator.Controller.Status.{initialize_replica_statuses}
use caffe2_operator.Controller.Slices.Laws.{get_pod_slices-table}
use caffe2_operator.Controller.Pods.Effects.{workers_at}
use caffe2_operator.Controller.Pods.{
  add_backend_env, create_for_key, create_new_pod, reconcile_slice, reconcile_slices, finish,
  reconcile_pods, label_template,
}

-- A job that the controller can read, but that has no backend.
pub record Undefaulted (k : Cluster) (job : Caffe2Job) (spec : Caffe2ReplicaSpec) : Type 0 where
  pub job_key : String
  pub template : PodTemplateSpec
  pub container : Container
  pub containers : List Container
  pub key : k.key_func job.meta ≡ ok job_key
  pub has_template : spec.template ≡ some template
  pub has_container : template.spec.containers ≡ container ∷ containers
  pub no_backend : job.spec.backend ≡ none

module _ (k : Cluster) (job : Caffe2Job) (spec : Caffe2ReplicaSpec)
    (u : Undefaulted k job spec) where
  add_backend_env-none :
      (index : String)
      → add_backend_env job spec index (u.container ∷ u.containers) ≡ panics nil_dereference
  unfolding add_backend_env
  add_backend_env-none index = rw u.no_backend refl

  create_new_pod-none :
      (rt index : String) (w : World)
      → create_new_pod k job rt index spec w ≡ panics nil_dereference
  unfolding create_new_pod create_for_key label_template
  create_new_pod-none rt index w =
      rw (u.key, create_new_pod)
        (deref-then spec.template u.template _ (panics nil_dereference) u.has_template (
          rw u.has_container (
            panics-then (add_backend_env job spec index (u.container ∷ u.containers))
              nil_dereference _ (add_backend_env-none index))))

  reconcile_slice-none :
      (i : ℕ) (w : World) → reconcile_slice k spec i [] (job, w) ≡ panics nil_dereference
  unfolding reconcile_slice
  reconcile_slice-none i w =
      panics-then (create_new_pod k job "worker" (itoa i) spec w) nil_dereference _
        (create_new_pod-none "worker" (itoa i) w)

-- A job with a key, a positive number of replicas, a template with a container and no backend, as it is
-- before its defaults are set: where replica 0 has no pod, `reconcilePods` panics, since `createNewPod`
-- dereferences the backend.
pub reconcile_pods_panics :
    (k : Cluster) (job : Caffe2Job) (spec : Caffe2ReplicaSpec) (n : ℕ) (pods : List Pod) (w : World)
    → Undefaulted k job spec
    → job.spec.replica_specs ≡ some spec
    → spec.replicas ≡ some (pos (suc n))
    → workers_at k pods 0 ≡ []
    → reconcile_pods k job pods job.spec.replica_specs w ≡ panics nil_dereference
unfolding reconcile_pods reconcile_slices initialize_replica_statuses
reconcile_pods_panics k job spec n pods w u has_spec has_replicas empty =
    deref-then job.spec.replica_specs spec _ (panics nil_dereference) has_spec (
      deref-then spec.replicas (pos (suc n)) _ (panics nil_dereference) has_replicas (
        rw (get_pod_slices-table, empty)
          (panics-then _ nil_dereference (finish k (pos (suc n))) (
            panics-then (reconcile_slice k spec 0 [] (initialize_replica_statuses job, w))
              nil_dereference _
              (reconcile_slice-none k (initialize_replica_statuses job) spec
                (record {
                  job_key = u.job_key;
                  template = u.template;
                  container = u.container;
                  containers = u.containers;
                  key = u.key;
                  has_template = u.has_template;
                  has_container = u.has_container;
                  no_backend = u.no_backend;
                })
                0 w)))))
