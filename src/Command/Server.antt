-- ===== src/Command/Server.antt =====
-- `Run` and `createClients` of cmd/caffe2-operator/app/server.go, and `Controller.Run` of
-- pkg/controller/controller.go, which the leader calls. The log lines are left out.
pub mod Laws
use caffe2_operator.Prelude.{
  ℕ, String, Bool, true, false, Option, none, some, List, [], ◌∷◌, ◌++◌, if◌then◌else◌, replicate,
}
use caffe2_operator.Prelude.Int.{ℤ, pos, negsuc}
use caffe2_operator.Prelude.Text.{◌<>◌, is_empty}
use caffe2_operator.Go.{
  Error, message, error_text, Result, ok, err, Outcome, returns, panics, ◌>>=◌,
}
use caffe2_operator.Command.ClusterConfig.{Env, getenv, Host, get_cluster_config}

-- What `Controller.Run` does, the deferred shutdown of the work queue last.
pub data Action : Type 0 where
  run_pod_informer run_job_informer start_worker wait_for_stop shut_down : Action
  -- `cache.WaitForCacheSync`, and whether it succeeded
  wait_for_jobs wait_for_pods : Bool → Action

-- `for i := 0; i < threadiness; i++`
unfoldable pub workers : ℤ → List Action
workers (pos n) = replicate n start_worker
workers (negsuc n) = []

-- `Controller.Run`: whether the two caches get synced is up to the informers.
unfoldable pub run_controller : (jobs_synced pods_synced : Bool) → ℤ → Option Error × List Action
run_controller false pods_synced threadiness = (
  some (message "failed to wait for caches to sync"),
  run_pod_informer ∷ run_job_informer ∷ wait_for_jobs false ∷ shut_down ∷ [],
)
run_controller true false threadiness = (
  some (message "failed to wait for pod caches to sync"),
  run_pod_informer ∷ run_job_informer ∷ wait_for_jobs true ∷ wait_for_pods false ∷ shut_down ∷ [],
)
run_controller true true threadiness = (
  none,
  run_pod_informer
      ∷ run_job_informer
      ∷ wait_for_jobs true
      ∷ wait_for_pods true
      ∷ (workers threadiness ++ wait_for_stop ∷ shut_down ∷ []),
)

pub record ServerOption : Type 0 where
  pub controller_config_file : String
  pub print_version : Bool

module _ (h : Host) where
  -- `createClients`
  unfoldable pub create_clients : h.Config → Result (h.KubeClient × h.KubeClient × h.JobClient)
  create_clients config = elim (h.new_kube_client (h.add_user_agent config "caffe2job_operator")) [
    | err e ↦ err e
    | ok kube ↦ elim (h.new_kube_client (h.add_user_agent config "leader-election")) [
      | err e ↦ err e
      | ok leader ↦ elim (h.new_job_client config) [
        | err e ↦ err e
        | ok jobs ↦ ok (kube, leader, jobs)
      ]
    ]
  ]

  -- The configuration of the leader election; its times are in seconds. `on_started_leading` is the
  -- call of `Controller.Run` with its number of workers.
  pub record LeaderElection : Type 0 where
    pub namespace : String
    pub name : String
    pub client : h.KubeClient
    pub identity : String
    pub lease_duration : ℕ
    pub renew_deadline : ℕ
    pub retry_period : ℕ
    pub on_started_leading : (jobs_synced pods_synced : Bool) → Option Error × List Action

  -- How `Run` ends, or hands over to `election.RunOrDie`.
  pub data Start : Type 0 where
    version_printed : Start
    failed : Error → Start
    elects : LeaderElection → Start

  unfoldable pub lead : String → h.KubeClient → Result String → Start
  lead namespace leader (err e) = failed (message ("Failed to get hostname: " <> error_text e))
  lead namespace leader (ok id) = elects (record {
    namespace = namespace;
    name = "caffe2-operator";
    client = leader;
    identity = id;
    lease_duration = 15;
    renew_deadline = 5;
    retry_period = 3;
    on_started_leading = λ jobs_synced pods_synced. run_controller jobs_synced pods_synced (pos 1);
  })

  unfoldable pub run_configured : String → Result h.Config → Start
  unfolding lead create_clients
  run_configured namespace (err e) = failed e
  run_configured namespace (ok config) = elim (create_clients config) [
    | err e ↦ failed e
    | ok (kube, leader, jobs) ↦ lead namespace leader h.hostname
  ]

  abbrev pub namespace_of : Env → String
  namespace_of env =
      if is_empty (getenv "KUBEFLOW_NAMESPACE" env)
      then "default"
      else getenv "KUBEFLOW_NAMESPACE" env

  -- `Run`; `controller.New` returns no error.
  unfoldable pub run : ServerOption → Env → Outcome (Start × Env)
  unfolding run_configured
  run opt env =
      if opt.print_version
      then returns (version_printed, env)
      else (get_cluster_config h opt.controller_config_file env >>= λ r.
          returns (run_configured (namespace_of env) r.0, r.1))
