-- ===== src/Command/ClusterConfig.antt =====
-- `GetClusterConfig` of pkg/util/k8sutil/k8sutil.go, and the constructors of clients that call it.
-- What they call of client-go, of the resolver and of the operating system is a parameter; the
-- environment is their state.
pub mod Laws
pub mod Source
pub mod Clients
use caffe2_operator.Prelude.{String, Bool, not, Option, none, some, List, [], ◌∷◌, if◌then◌else◌}
use caffe2_operator.Prelude.Dict.{Dict, lookup, insert}
use caffe2_operator.Prelude.Text.{is_empty}
use caffe2_operator.Go.{
  Error, Result, ok, err, Outcome, returns, panics, ◌>>=◌, out_of_range, panicked,
}

abbrev pub Env : Type 0
Env = Dict String

-- `os.Getenv`
abbrev pub getenv : String → Env → String
getenv key env = elim (lookup key env) [ none ↦ "" | some value ↦ value ]

pub record Host : Type 1 where
  pub Config : Type 0
  pub KubeClient : Type 0
  pub JobClient : Type 0
  -- `clientcmd.BuildConfigFromFlags("", path)`
  pub build_config_from_flags : String → Result Config
  -- `rest.InClusterConfig`, which reads the environment
  pub in_cluster_config : Env → Result Config
  -- `net.LookupHost`
  pub lookup_host : String → Result (List String)
  -- the error of `os.Setenv`
  pub setenv_error : String → String → Option Error
  -- `rest.AddUserAgent`
  pub add_user_agent : Config → String → Config
  -- `NewForConfig` of the Kubernetes clients and of the job client
  pub new_kube_client : Config → Result KubeClient
  pub new_job_client : Config → Result JobClient
  -- `os.Hostname`
  pub hostname : Result String

abbrev pub config_path_variable : String
config_path_variable = "KUBECONFIG"

abbrev pub service_host : String
service_host = "KUBERNETES_SERVICE_HOST"

abbrev pub service_port : String
service_port = "KUBERNETES_SERVICE_PORT"

abbrev pub first : List String → Outcome String
first [] = panics out_of_range
first (addr ∷ addrs) = returns addr

-- How a constructor whose name begins with `Must` ends: `log.Fatal` ends the program.
pub data Must (Client : Type 0) : Type 0 where
  made : Client → Must Client
  exits : Error → Must Client

module _ (h : Host) where
  -- `os.Setenv`
  abbrev pub setenv : String → String → Env → Option Error × Env
  setenv key value env = elim (h.setenv_error key value) [
    | none ↦ (none, insert key value env)
    | some e ↦ (some e, env)
  ]

  unfoldable pub resolve : Result (List String) → Env → Outcome (Option Error × Env)
  resolve (err e) env = panics (panicked e)
  resolve (ok addrs) env = first addrs >>= λ addr. returns (setenv service_host addr env)

  -- The address of the API server, where the environment has none.
  unfoldable pub ensure_host : Env → Outcome (Option Error × Env)
  unfolding resolve
  ensure_host env =
      if is_empty (getenv service_host env)
      then resolve (h.lookup_host "kubernetes.default.svc") env
      else returns (none, env)

  or_panic : Option Error × Env → Outcome Env
  or_panic (none, env) = returns env
  or_panic (some e, env) = panics (panicked e)

  -- Its port.
  unfoldable pub ensure_port : Env → Outcome Env
  unfolding or_panic
  ensure_port env =
      if is_empty (getenv service_port env)
      then or_panic (setenv service_port "443" env)
      else returns env

  unfoldable pub configured : Option Error × Env → Outcome (Result h.Config × Env)
  configured (some e, env) = returns (err e, env)
  configured (none, env) = ensure_port env >>= λ env'. returns (h.in_cluster_config env', env')

  -- `GetClusterConfig`
  unfoldable pub get_cluster_config : String → Env → Outcome (Result h.Config × Env)
  unfolding configured
  get_cluster_config f env =
      if not (is_empty f)
      then returns (h.build_config_from_flags f, env)
      else if not (is_empty (getenv config_path_variable env))
      then returns (h.build_config_from_flags (getenv config_path_variable env), env)
      else ensure_host env >>= configured

  module _ {Client : Type 0} (or_die : h.Config → Outcome Client) where
    unfoldable pub must_config : Result h.Config × Env → Outcome (Must Client × Env)
    must_config (err e, env) = returns (exits e, env)
    must_config (ok config, env) = or_die config >>= λ client. returns (made client, env)

    -- `MustNewKubeClient` and `MustNewApiExtensionsClient`, each with its `NewForConfigOrDie`.
    unfoldable pub must_new_client : Env → Outcome (Must Client × Env)
    unfolding must_config
    must_new_client env = get_cluster_config "" env >>= must_config
