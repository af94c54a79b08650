-- ===== src/Command/ClusterConfig/Source.antt =====
-- Where `GetClusterConfig` gets the configuration.
use caffe2_operator.Command.ClusterConfig.Laws.{getenv-insert, setenv-none, setenv-some}
use caffe2_operator.Prelude.{
  ◌⊎◌, String, ◌≡◌, refl, ◌∙◌, inl, inr, true, false, Option, none, some, List, [], ◌∷◌,
  if◌then◌else◌, Bool-cases, Option-cases,
}
use caffe2_operator.Prelude.Text.{is_empty}
use text.Mathlib.Text.{◌==◌}
use caffe2_operator.Go.{Error, Result, ok, err, returns, Ends, Ends-then, Ends-at}
use caffe2_operator.Command.ClusterConfig.{
  Env, getenv, Host, config_path_variable, service_host, service_port, setenv, resolve, ensure_host,
  or_panic, ensure_port, configured, get_cluster_config,
}

module _ (h : Host) where
  -- The host: the old one, or the first address of the API server's name if there was none.
  abbrev pub HostFrom : Env → Env → Type 0
  HostFrom env env' =
      ((is_empty (getenv "KUBERNETES_SERVICE_HOST" env) ≡ false)
        × (getenv "KUBERNETES_SERVICE_HOST" env' ≡ getenv "KUBERNETES_SERVICE_HOST" env))
      ⊎ ((is_empty (getenv "KUBERNETES_SERVICE_HOST" env) ≡ true)
          × (addrs : List String) × (h.lookup_host "kubernetes.default.svc"
              ≡ ok (getenv "KUBERNETES_SERVICE_HOST" env' ∷ addrs)))

  -- Other variables than host and port.
  abbrev pub OthersSame : Env → Env → Type 0
  OthersSame env env' =
      (name : String)
      → ("KUBERNETES_SERVICE_HOST" == name) ≡ false
      → ("KUBERNETES_SERVICE_PORT" == name) ≡ false
      → getenv name env' ≡ getenv name env

  -- What setting the host leaves.
  record Hosted (env env' : Env) : Type 0 where
    host : HostFrom env env'
    port : getenv service_port env' ≡ getenv service_port env
    others :
        (name : String)
        → ("KUBERNETES_SERVICE_HOST" == name) ≡ false
        → getenv name env' ≡ getenv name env

  abbrev HostedIf : Env → Option Error × Env → Type 0
  HostedIf env (none, env') = Hosted env env'
  HostedIf env (some e, env') = Unit

  set_host-Hosted :
      (env : Env) (addr : String) (addrs : List String)
      → is_empty (getenv service_host env) ≡ true
      → h.lookup_host "kubernetes.default.svc" ≡ ok (addr ∷ addrs)
      → HostedIf env (setenv h service_host addr env)
  set_host-Hosted env addr addrs empty found =
      elim (Option-cases (h.setenv_error service_host addr)) [
        | inr (x, e) ↦ rw (setenv-some h service_host addr env x e) tt
        | inl e ↦ rw (setenv-none h service_host addr env e) (record {
          host = inr (empty, addrs, rw (getenv-insert h service_host service_host addr env) found);
          port = getenv-insert h service_host service_port addr env;
          others = λ name n. getenv-insert h service_host name addr env ∙ rw n refl;
        })
      ]

  resolve-Hosted :
      (r : Result (List String)) (env : Env)
      → is_empty (getenv service_host env) ≡ true
      → h.lookup_host "kubernetes.default.svc" ≡ r
      → Ends (HostedIf env) (resolve h r env)
  unfolding resolve
  resolve-Hosted (err e) env empty found = tt
  resolve-Hosted (ok []) env empty found = tt
  resolve-Hosted (ok (addr ∷ addrs)) env empty found = set_host-Hosted env addr addrs empty found

  ensure_host-Hosted : (env : Env) → Ends (HostedIf env) (ensure_host h env)
  unfolding ensure_host
  ensure_host-Hosted env = elim (Bool-cases (is_empty (getenv service_host env))) [
    | inr full ↦
        rw (full, ensure_host)
          (record { host = inl (full, refl); port = refl; others = λ name n. refl })
    | inl empty ↦
        rw (empty, ensure_host)
          (resolve-Hosted (h.lookup_host "kubernetes.default.svc") env empty refl)
  ]

  -- Where `GetClusterConfig` gets the configuration: of the given file; of the file that KUBECONFIG
  -- names; or of the environment, after host and port have been added to it where they were missing.
  pub data From (f : String) (env : Env) (config : h.Config) (env' : Env) : Type 0 where
    of_file :
        is_empty f ≡ false
        → h.build_config_from_flags f ≡ ok config
        → env' ≡ env
        → From f env config env'
    of_variable :
        is_empty f ≡ true
        → is_empty (getenv "KUBECONFIG" env) ≡ false
        → h.build_config_from_flags (getenv "KUBECONFIG" env) ≡ ok config
        → env' ≡ env
        → From f env config env'
    of_cluster :
        is_empty f ≡ true
        → is_empty (getenv "KUBECONFIG" env) ≡ true
        → HostFrom env env'
        → (getenv "KUBERNETES_SERVICE_PORT" env' ≡ (
            if is_empty (getenv "KUBERNETES_SERVICE_PORT" env)
            then "443"
            else getenv "KUBERNETES_SERVICE_PORT" env))
        → OthersSame env env'
        → h.in_cluster_config env' ≡ ok config
        → From f env config env'

  abbrev FromIf : String → Env → Result h.Config × Env → Type 0
  FromIf f env (ok config, env') = From f env config env'
  FromIf f env (err e, env') = Unit

  -- What the port's step leaves.
  record Ported (env env' : Env) : Type 0 where
    port :
        getenv service_port env'
        ≡ (if is_empty (getenv service_port env) then "443" else getenv service_port env)
    others :
        (name : String)
        → ("KUBERNETES_SERVICE_PORT" == name) ≡ false
        → getenv name env' ≡ getenv name env

  ensure_port-Ported : (env : Env) → Ends (Ported env) (ensure_port h env)
  unfolding ensure_port or_panic
  ensure_port-Ported env = elim (Bool-cases (is_empty (getenv service_port env))) [
    | inr full ↦ rw (full, ensure_port) (record { port = rw full refl; others = λ name n. refl })
    | inl empty ↦
        rw (empty, ensure_port)
          (elim (Option-cases (h.setenv_error service_port "443")) [
            | inr (x, e) ↦ rw (setenv-some h service_port "443" env x e) tt
            | inl e ↦ rw (setenv-none h service_port "443" env e) (record {
              port = getenv-insert h service_port service_port "443" env ∙ rw empty refl;
              others = λ name n. getenv-insert h service_port name "443" env ∙ rw n refl;
            })
          ])
  ]

  in_cluster-From :
      (f : String) (env env' env'' : Env) (r : Result h.Config)
      → is_empty f ≡ true
      → is_empty (getenv config_path_variable env) ≡ true
      → Hosted env env'
      → Ported env' env''
      → h.in_cluster_config env'' ≡ r
      → FromIf f env (r, env'')
  in_cluster-From f env env' env'' (err e) no_file no_path a p got = tt
  in_cluster-From f env env' env'' (ok config) no_file no_path a p got =
      of_cluster no_file no_path (rw (p.others service_host refl) a.host) (p.port ∙ rw a.port refl)
        (λ name n m. p.others name m ∙ a.others name n) got

  configured-From :
      (f : String) (env : Env) (x : Option Error × Env)
      → is_empty f ≡ true
      → is_empty (getenv config_path_variable env) ≡ true
      → HostedIf env x
      → Ends (FromIf f env) (configured h x)
  unfolding configured
  configured-From f env (some e, env') no_file no_path a = tt
  configured-From f env (none, env') no_file no_path a =
      Ends-then (Ported env') (FromIf f env) (ensure_port h env') _ (ensure_port-Ported env')
        (λ env'' p. in_cluster-From f env env' env'' _ no_file no_path a p refl)

  file-From :
      (f : String) (env : Env) (r : Result h.Config)
      → is_empty f ≡ false
      → h.build_config_from_flags f ≡ r
      → FromIf f env (r, env)
  file-From f env (err e) file got = tt
  file-From f env (ok config) file got = of_file file got refl

  variable-From :
      (f : String) (env : Env) (r : Result h.Config)
      → is_empty f ≡ true
      → is_empty (getenv "KUBECONFIG" env) ≡ false
      → h.build_config_from_flags (getenv "KUBECONFIG" env) ≡ r
      → FromIf f env (r, env)
  variable-From f env (err e) no_file path got = tt
  variable-From f env (ok config) no_file path got = of_variable no_file path got refl

  get_cluster_config-FromIf :
      (f : String) (env : Env) → Ends (FromIf f env) (get_cluster_config h f env)
  unfolding get_cluster_config
  get_cluster_config-FromIf f env = elim (Bool-cases (is_empty f)) [
    | inr file ↦ rw (file, get_cluster_config) (file-From f env _ file refl)
    | inl no_file ↦ elim (Bool-cases (is_empty (getenv config_path_variable env))) [
      | inr path ↦ rw (no_file, path, get_cluster_config) (variable-From f env _ no_file path refl)
      | inl no_path ↦
          rw (no_file, no_path, get_cluster_config)
            (Ends-then (HostedIf env) (FromIf f env) (ensure_host h env) (configured h)
              (ensure_host-Hosted env) (λ x a. configured-From f env x no_file no_path a))
    ]
  ]

  -- A configuration that `GetClusterConfig` returns is that of the given file; or, if none is given, that
  -- of the file that KUBECONFIG names; or, if it names none, that of the cluster, in the environment that
  -- is left. This has the host and the port that it had, the first address of the API server's name
  -- where there was no host, 443 where there was no port, and else the variables that it had; for a file
  -- the environment is as it was.
  pub get_cluster_config-From :
      (f : String) (env env' : Env) (config : h.Config)
      → get_cluster_config h f env ≡ returns (ok config, env')
      → From f env config env'
  get_cluster_config-From f env env' config run =
      Ends-at (FromIf f env) (get_cluster_config h f env) (ok config, env')
        (get_cluster_config-FromIf f env) run
