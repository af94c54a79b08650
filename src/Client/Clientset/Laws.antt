-- ===== src/Client/Clientset/Laws.antt =====
-- How `NewForConfig` makes a clientset of a configuration.
use caffe2_operator.Prelude.{
  arith, true, false, none, some, inl, inr, ◌≡◌, refl, ◌⊎◌, if◌then◌else◌,
}
use caffe2_operator.Prelude.Text.{is_empty}
use caffe2_operator.Go.{Error, Result, ok, err, Result-cases}
use caffe2_operator.Controller.RefManager.{is_some}
use caffe2_operator.Client.Clientset.{
  ClientGo, ClientConfig, Clientset, set_config_defaults, kubeflow_for_config, with_discovery,
  for_limited, with_rate_limiter, new_for_config,
}

module _ (g : ClientGo) where
  -- The configuration that both clients get: with a new rate limiter of the given rate and burst, if the
  -- given one has none and a positive rate; else the given one.
  pub record Limited (c limited : ClientConfig g) : Type 0 where
    pub added :
        c.rate_limiter ≡ none
        → g.is_positive c.qps ≡ true
        → limited ≡ record c { rate_limiter = some (g.new_rate_limiter c.qps c.burst) }
    pub kept : (is_some c.rate_limiter ≡ true) ⊎ (g.is_positive c.qps ≡ false) → limited ≡ c

  -- The configuration for the API group of the jobs.
  abbrev pub for_jobs : ClientConfig g → ClientConfig g
  for_jobs c = record c {
    group_version = some (record { group = "kubeflow.org"; version = "v1alpha1" });
    api_path = "/apis";
    negotiated_serializer = some g.codecs;
    user_agent = if is_empty c.user_agent then g.default_user_agent else c.user_agent;
  }

  -- What the two clients come to, each made of the same configuration.
  pub data Made (limited : ClientConfig g) : Result (Clientset g) → Type 0 where
    clients :
        (cs : Clientset g)
        → g.rest_client_for (for_jobs limited) ≡ ok cs.kubeflow_v1alpha1.rest_client
        → g.discovery_for_config limited ≡ ok cs.discovery_client
        → Made limited (ok cs)
    no_rest_client :
        (e : Error) → g.rest_client_for (for_jobs limited) ≡ err e → Made limited (err e)
    no_discovery : (e : Error) → g.discovery_for_config limited ≡ err e → Made limited (err e)

  with_rate_limiter-Limited : (c : ClientConfig g) → Limited c (with_rate_limiter g c)
  unfolding with_rate_limiter
  with_rate_limiter-Limited c = record { added = λ e p. rw (e, p) refl; kept = λ h. ground arith }

  for_limited-Made : (c : ClientConfig g) → Made c (for_limited g c)
  unfolding for_limited with_discovery kubeflow_for_config set_config_defaults
  for_limited-Made c = elim (Result-cases (g.rest_client_for (for_jobs c))) [
    | inl (e, h) ↦ rw (h, for_limited) (no_rest_client e h)
    | inr (client, h) ↦ elim (Result-cases (g.discovery_for_config c)) [
      | inl (e, d) ↦ rw (h, d, for_limited) (no_discovery e d)
      | inr (discovery, d) ↦ rw (h, d, for_limited) (clients _ h d)
    ]
  ]

  -- `NewForConfig` makes both clients of one configuration: the given one, with a new rate limiter of
  -- its rate and burst if it has none and its rate is positive. It returns the clientset with the REST
  -- client for the group kubeflow.org, version v1alpha1, under /apis, and with the discovery client, or
  -- the error of one of these.
  pub new_for_config-Made :
      (c : ClientConfig g)
      → (limited : ClientConfig g) × Limited c limited × Made limited (new_for_config g c)
  unfolding new_for_config
  new_for_config-Made c =
      (with_rate_limiter g c, with_rate_limiter-Limited c, for_limited-Made (with_rate_limiter g c))
