-- ===== src/Command/Server/Laws.antt =====
-- What the operator does before it is the leader, and when it is.
use caffe2_operator.Prelude.{
  ◌&&◌, ℕ, suc, ◌*◌, ◌<◌, String, ◌≡◌, refl, inl, inr, Bool, true, false, List, [], ◌∷◌,
  if◌then◌else◌, arith, Bool-cases,
}
use caffe2_operator.Command.Server.{
  pos, Action, start_worker, workers, run_controller, ServerOption, create_clients, LeaderElection,
  Start, elects, lead, run_configured, namespace_of, run,
}
use caffe2_operator.Prelude.Text.{is_empty}
use caffe2_operator.Go.{
  Result, ok, err, Outcome, returns, panics, Ends, Ends-then, Ends-at, Result-cases,
}
use caffe2_operator.Command.ClusterConfig.{Env, getenv, Host, get_cluster_config}

-- How many workers are started.
abbrev pub started : List Action → ℕ
started [] = 0
started (start_worker ∷ actions) = suc (started actions)
started (action ∷ actions) = started actions

Ends-self : {A : Type 0} (m : Outcome A) → Ends (λ a. m ≡ returns a) m
Ends-self (returns a) = refl
Ends-self (panics p) = tt

module _ (h : Host) (opt : ServerOption) (env : Env) where
  -- What an election needs: a configuration, all clients, an identity and a namespace; its times are
  -- such as `election.RunOrDie` asks for, whose jitter factor is 6/5; and the leader starts one worker,
  -- and only when both caches are synced.
  pub record Elected (e : LeaderElection h) (env' : Env) : Type 0 where
    pub no_version : opt.print_version ≡ false
    pub config : h.Config
    pub has_config : get_cluster_config h opt.controller_config_file env ≡ returns (ok config, env')
    pub kube : h.KubeClient
    pub jobs : h.JobClient
    pub has_clients : create_clients h config ≡ ok (kube, e.client, jobs)
    pub identity : h.hostname ≡ ok e.identity
    pub namespace : is_empty e.namespace ≡ false
    pub renews : e.renew_deadline < e.lease_duration
    pub retries : 6 * e.retry_period < 5 * e.renew_deadline
    pub one_worker :
        (jobs_synced pods_synced : Bool)
        → started (e.on_started_leading jobs_synced pods_synced).1
          ≡ (if jobs_synced && pods_synced then 1 else 0)

  ElectedAt : Start h × Env → Type 0
  ElectedAt x = (e : LeaderElection h) → x.0 ≡ elects e → Elected e x.1

  namespace_of_nonempty : is_empty (namespace_of h env) ≡ false
  namespace_of_nonempty = elim (Bool-cases (is_empty (getenv "KUBEFLOW_NAMESPACE" env))) [
    | inl e ↦ rw (e, namespace_of) refl
    | inr e ↦ rw (e, namespace_of) e
  ]

  one_worker_only :
      (jobs_synced pods_synced : Bool)
      → started (run_controller jobs_synced pods_synced (pos 1)).1
        ≡ (if jobs_synced && pods_synced then 1 else 0)
  unfolding run_controller workers
  one_worker_only false p = refl
  one_worker_only true false = refl
  one_worker_only true true = refl

  lead-Elected :
      (no_version : opt.print_version ≡ false) (env' : Env) (config : h.Config)
      (kube leader : h.KubeClient) (jobs : h.JobClient) (r : Result String)
      → get_cluster_config h opt.controller_config_file env ≡ returns (ok config, env')
      → create_clients h config ≡ ok (kube, leader, jobs)
      → h.hostname ≡ r
      → ElectedAt (lead h (namespace_of h env) leader r, env')
  unfolding lead ElectedAt
  lead-Elected no_version env' config kube leader jobs (err x) has_config has_clients name e eq =
      absurd (cc eq)
  lead-Elected no_version env' config kube leader jobs (ok id) has_config has_clients name e eq =
      rw (elects_eq _ e eq) at (
        the_lead
          (record {
            namespace = namespace_of h env;
            name = "caffe2-operator";
            client = leader;
            identity = id;
            lease_duration = 15;
            renew_deadline = 5;
            retry_period = 3;
            on_started_leading =
                λ jobs_synced pods_synced. run_controller jobs_synced pods_synced (pos 1);
          })
          (record {
            no_version = no_version;
            config = config;
            has_config = has_config;
            kube = kube;
            jobs = jobs;
            has_clients = has_clients;
            identity = name;
            namespace = namespace_of_nonempty;
            renews = omega arith;
            retries = omega arith;
            one_worker = one_worker_only;
          }))
    where
      elects_eq : (a b : LeaderElection h) → elects a ≡ elects b → a ≡ b
      elects_eq a b eq = cc

      the_lead : (e : LeaderElection h) → Elected e env' → Elected e env'
      the_lead e x = x

  run_configured-Elected :
      (no_version : opt.print_version ≡ false) (env' : Env) (r : Result h.Config)
      → get_cluster_config h opt.controller_config_file env ≡ returns (r, env')
      → ElectedAt (run_configured h (namespace_of h env) r, env')
  unfolding run_configured
  run_configured-Elected no_version env' (err x) has = unfold ElectedAt in λ e eq. absurd (cc eq)
  run_configured-Elected no_version env' (ok config) has =
      elim (Result-cases (create_clients h config)) [
        | inl (x, c) ↦ rw (c, run_configured) (unfold ElectedAt in λ e eq. absurd (cc eq))
        | inr ((kube, leader, jobs), c) ↦
            rw (c, run_configured)
              (lead-Elected no_version env' config kube leader jobs h.hostname has c refl)
      ]

  run-ElectedAt : Ends ElectedAt (run h opt env)
  unfolding run
  run-ElectedAt = elim (Bool-cases opt.print_version) [
    | inl e ↦ simp (e, run) (unfold ElectedAt in λ x eq. absurd (cc eq))
    | inr e ↦
        simp (e, run)
          (Ends-then (λ r. get_cluster_config h opt.controller_config_file env ≡ returns r)
            ElectedAt (get_cluster_config h opt.controller_config_file env) _
            (Ends-self (get_cluster_config h opt.controller_config_file env))
            (λ r has. run_configured-Elected e r.1 r.0 has))
  ]

  -- Where `Run` comes to the leader election, the version flag is off; the configuration, the clients
  -- and the host name could be had; the namespace is not empty; the times are such as the election asks
  -- for; and the leader starts one worker if both caches get synced, and none otherwise.
  pub run_elects :
      (e : LeaderElection h) (env' : Env)
      → run h opt env ≡ returns (elects e, env')
      → Elected e env'
  run_elects e env' eq =
      unfold ElectedAt in Ends-at ElectedAt (run h opt env) (elects e, env') run-ElectedAt eq e refl
