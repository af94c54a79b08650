-- ===== src/Examples/Startup.antt =====
-- The theorems on the start of the operator, applied.
use caffe2_operator.Prelude.{refl, false, none, [], ◌∷◌, String}
use caffe2_operator.Prelude.Int.{pos}
use caffe2_operator.Prelude.Dict.{lookup, insert}
use caffe2_operator.Go.{ok}
use caffe2_operator.Command.ClusterConfig.{
  Env, getenv, Host, resolve, ensure_host, ensure_port, configured, get_cluster_config,
}
use caffe2_operator.Command.ClusterConfig.Source.{From, get_cluster_config-From}
use caffe2_operator.Command.Server.{
  ServerOption, LeaderElection, create_clients, lead, run_configured, run_controller, run,
}
use caffe2_operator.Command.Server.Laws.{Elected, run_elects}

abbrev host : Host
host = record {
  Config = String;
  KubeClient = String;
  JobClient = String;
  build_config_from_flags = λ path. ok path;
  in_cluster_config = λ env. ok (getenv "KUBERNETES_SERVICE_HOST" env);
  lookup_host = λ name. ok ("10.0.0.1" ∷ []);
  setenv_error = λ key value. none;
  add_user_agent = λ config agent. config;
  new_kube_client = λ config. ok config;
  new_job_client = λ config. ok config;
  hostname = ok "node";
}

-- What the first call leaves.
abbrev env : Env
env = ("KUBERNETES_SERVICE_HOST", "10.0.0.1") ∷ ("KUBERNETES_SERVICE_PORT", "443") ∷ []

get_cluster_config-From_example : From host "" [] "10.0.0.1" env
unfolding get_cluster_config ensure_host ensure_port resolve configured lookup insert
get_cluster_config-From_example = get_cluster_config-From host "" [] env "10.0.0.1" refl

abbrev options : ServerOption
options = record { controller_config_file = ""; print_version = false }

abbrev election : LeaderElection host
election = record {
  namespace = "default";
  name = "caffe2-operator";
  client = "10.0.0.1";
  identity = "node";
  lease_duration = 15;
  renew_deadline = 5;
  retry_period = 3;
  on_started_leading = λ jobs_synced pods_synced. run_controller jobs_synced pods_synced (pos 1);
}

run_elects_example : Elected host options [] election env
unfolding run run_configured create_clients lead get_cluster_config ensure_host ensure_port resolve
    configured lookup insert
run_elects_example = run_elects host options [] election env refl
