-- ===== src/Examples/Complete.antt =====
-- A job with both of its pods.
use caffe2_operator.Prelude.{ℕ, zero, suc, ◌<◌, ◌≡◌, refl, some, [], ◌∷◌, arith}
use caffe2_operator.Prelude.Dict.{lookup}
use caffe2_operator.Prelude.Decimal.{atoi}
use caffe2_operator.Go.{Runs}
use caffe2_operator.Kube.{Pod}
use caffe2_operator.Controller.Slices.{index_of, filter_pods_for_caffe2_replica_type}
use caffe2_operator.Controller.Pods.{reconcile_pods}
use caffe2_operator.Controller.Pods.Effects.{workers_at}
use caffe2_operator.Controller.Pods.Converged.{Occupied, reconcile_pods_converged}
use caffe2_operator.Examples.{
  job, cluster, is_value, has_label, has_labels, job-Ready, start, worker,
}

-- The pod of replica 1.
second : Pod
unfolding worker
second = record worker {
  meta = record worker.meta {
    labels = some (("caffe2_replica_type", "worker") ∷ ("caffe2_replica_index", "1") ∷ []);
  };
}

both-Occupied :
    (i : ℕ) → i < job-Ready.replicas → Occupied (workers_at (cluster []) (second ∷ worker ∷ []) i)
unfolding cluster has_labels has_label is_value filter_pods_for_caffe2_replica_type index_of atoi
    lookup second worker job-Ready
both-Occupied zero lt = (worker, [], refl)
both-Occupied (suc zero) lt = (second, [], refl)
both-Occupied (suc (suc n)) lt = absurd (omega arith)

reconcile_pods_converged_example :
    Runs
      (λ x. x.1.1.calls ≡ start.calls)
      (reconcile_pods (cluster []) job (second ∷ worker ∷ []) job.spec.replica_specs start)
reconcile_pods_converged_example =
    reconcile_pods_converged (cluster []) job (second ∷ worker ∷ []) job-Ready start both-Occupied
