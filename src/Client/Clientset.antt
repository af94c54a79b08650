-- ===== src/Client/Clientset.antt =====
-- pkg/client/clientset/versioned/clientset.go and typed/kubeflow/v1alpha1/kubeflow_client.go: how the
-- clients are made of a configuration. What they call of client-go is a parameter.
pub mod Laws
use caffe2_operator.Prelude.{String, Bool, Option, none, some, ◌&&◌, not, if◌then◌else◌}
use caffe2_operator.Prelude.Int.{ℤ}
use caffe2_operator.Prelude.Text.{is_empty}
use caffe2_operator.Go.{Error, Result, ok, err, Outcome, returns, panics, panicked, ◌>>=◌}
use caffe2_operator.Api.Types.{group_name, group_version}
use caffe2_operator.Controller.RefManager.{is_some}
use caffe2_operator.Client.Interface.{Caffe2JobInterface}
use caffe2_operator.Client.Typed.{Rest, new_caffe2_jobs}

pub record GroupVersion : Type 0 where
  pub group : String
  pub version : String

-- `rest.Config`: the fields that the code reads or writes, and the others in one.
pub record Config (RateLimiter Qps Serializer Others : Type 0) : Type 0 where
  pub rate_limiter : Option RateLimiter
  pub qps : Qps
  pub burst : ℤ
  pub group_version : Option GroupVersion
  pub api_path : String
  pub negotiated_serializer : Option Serializer
  pub user_agent : String
  pub others : Others

pub record ClientGo : Type 1 where
  pub RateLimiter : Type 0
  -- a `float32`, and whether it is positive
  pub Qps : Type 0
  pub is_positive : Qps → Bool
  pub Serializer : Type 0
  pub Others : Type 0
  pub DiscoveryClient : Type 0
  -- `rest.Interface`
  pub RestClient : Type 0
  -- `flowcontrol.NewTokenBucketRateLimiter`
  pub new_rate_limiter : Qps → ℤ → RateLimiter
  -- `serializer.DirectCodecFactory` of the scheme's codecs
  pub codecs : Serializer
  -- `rest.DefaultKubernetesUserAgent`
  pub default_user_agent : String
  -- `rest.RESTClientFor`
  pub rest_client_for : Config RateLimiter Qps Serializer Others → Result RestClient
  -- `discovery.NewDiscoveryClientForConfig`, `NewDiscoveryClientForConfigOrDie` and
  -- `NewDiscoveryClient`
  pub discovery_for_config : Config RateLimiter Qps Serializer Others → Result DiscoveryClient
  pub discovery_for_config_or_die :
      Config RateLimiter Qps Serializer Others → Outcome DiscoveryClient
  pub discovery_client : RestClient → DiscoveryClient

module _ (g : ClientGo) where
  abbrev pub ClientConfig : Type 0
  ClientConfig = Config g.RateLimiter g.Qps g.Serializer g.Others

  pub record KubeflowClient : Type 0 where
    pub rest_client : g.RestClient

  -- `setConfigDefaults`, which always returns nil.
  unfoldable pub set_config_defaults : ClientConfig → ClientConfig
  set_config_defaults config = record config {
    group_version = some (record { group = group_name; version = group_version });
    api_path = "/apis";
    negotiated_serializer = some g.codecs;
    user_agent = if is_empty config.user_agent then g.default_user_agent else config.user_agent;
  }

  -- `NewForConfig` of kubeflow_client.go
  unfoldable pub kubeflow_for_config : ClientConfig → Result KubeflowClient
  unfolding set_config_defaults
  kubeflow_for_config c = elim (g.rest_client_for (set_config_defaults c)) [
    | err e ↦ err e
    | ok client ↦ ok (record { rest_client = client })
  ]

  -- `NewForConfigOrDie` of kubeflow_client.go
  unfoldable pub kubeflow_for_config_or_die : ClientConfig → Outcome KubeflowClient
  kubeflow_for_config_or_die c = elim (kubeflow_for_config c) [
    | err e ↦ panics (panicked e)
    | ok client ↦ returns client
  ]

  -- `New` of kubeflow_client.go
  unfoldable pub kubeflow_new : g.RestClient → KubeflowClient
  kubeflow_new c = record { rest_client = c }

  -- `RESTClient`, on a pointer that may be nil
  unfoldable pub rest_client_of : Option KubeflowClient → Option g.RestClient
  rest_client_of none = none
  rest_client_of (some c) = some c.rest_client

  pub record Clientset : Type 0 where
    pub discovery_client : g.DiscoveryClient
    pub kubeflow_v1alpha1 : KubeflowClient

  -- `Discovery`, on a pointer that may be nil
  unfoldable pub discovery : Option Clientset → Option g.DiscoveryClient
  discovery none = none
  discovery (some c) = some c.discovery_client

  -- The copy of the configuration in which the clients share a rate limiter.
  unfoldable pub with_rate_limiter : ClientConfig → ClientConfig
  with_rate_limiter c =
      if not (is_some c.rate_limiter) && g.is_positive c.qps
      then record c { rate_limiter = some (g.new_rate_limiter c.qps c.burst) }
      else c

  unfoldable pub with_discovery : KubeflowClient → Result g.DiscoveryClient → Result Clientset
  with_discovery kubeflow (err e) = err e
  with_discovery kubeflow (ok client) =
      ok (record { discovery_client = client; kubeflow_v1alpha1 = kubeflow })

  unfoldable pub for_limited : ClientConfig → Result Clientset
  unfolding with_discovery
  for_limited c = elim (kubeflow_for_config c) [
    | err e ↦ err e
    | ok kubeflow ↦ with_discovery kubeflow (g.discovery_for_config c)
  ]

  -- `NewForConfig` of clientset.go
  unfoldable pub new_for_config : ClientConfig → Result Clientset
  unfolding for_limited with_rate_limiter
  new_for_config c = for_limited (with_rate_limiter c)

  -- `NewForConfigOrDie` of clientset.go
  unfoldable pub new_for_config_or_die : ClientConfig → Outcome Clientset
  unfolding kubeflow_for_config_or_die
  new_for_config_or_die c = kubeflow_for_config_or_die c >>= λ kubeflow.
      g.discovery_for_config_or_die c >>= λ client.
      returns (record { discovery_client = client; kubeflow_v1alpha1 = kubeflow })

  -- `New` of clientset.go
  unfoldable pub new : g.RestClient → Clientset
  unfolding kubeflow_new
  new c = record { discovery_client = g.discovery_client c; kubeflow_v1alpha1 = kubeflow_new c }

  -- `clientset.KubeflowV1alpha1().Caffe2Jobs(namespace)`, where `requests` are those of the REST client.
  unfoldable pub caffe2_jobs :
      (requests : g.RestClient → Rest) (cs : Clientset)
      → String
      → Caffe2JobInterface
          (requests cs.kubeflow_v1alpha1.rest_client).State
          (requests cs.kubeflow_v1alpha1.rest_client).Watch
  caffe2_jobs requests cs namespace =
      new_caffe2_jobs (requests cs.kubeflow_v1alpha1.rest_client) namespace
