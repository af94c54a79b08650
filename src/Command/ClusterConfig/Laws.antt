-- ===== src/Command/ClusterConfig/Laws.antt =====
-- Asking for the configuration again.
use caffe2_operator.Prelude.{
  String, ◌≡◌, refl, ◌∙◌, inl, inr, true, false, Option, none, some, List, [], ◌∷◌, if◌then◌else◌,
  arith, Bool-cases, Option-cases,
}
use caffe2_operator.Prelude.Dict.{insert, lookup-insert}
use caffe2_operator.Prelude.Text.{is_empty}
use text.Mathlib.Text.{◌==◌}
use caffe2_operator.Go.{Error, Result, ok, err, returns, Ends, Ends-then, Ends-at}
use caffe2_operator.Command.ClusterConfig.{
  Env, getenv, Host, config_path_variable, service_host, service_port, setenv, resolve, ensure_host,
  or_panic, ensure_port, configured, get_cluster_config,
}

module _ (h : Host) where
  -- No address that the resolver returns is the empty text.
  abbrev pub Addresses : Type 0
  Addresses =
      (name : String) (addr : String) (addrs : List String)
      → h.lookup_host name ≡ ok (addr ∷ addrs)
      → is_empty addr ≡ false

  pub getenv-insert :
      (key asked value : String) (env : Env)
      → getenv asked (insert key value env) ≡ (if key == asked then value else getenv asked env)
  getenv-insert key asked value env = ground (arith, lookup-insert key asked value env)

  pub setenv-none :
      (key value : String) (env : Env)
      → h.setenv_error key value ≡ none
      → setenv h key value env ≡ (none, insert key value env)
  setenv-none key value env e = rw (e, setenv) refl

  pub setenv-some :
      (key value : String) (env : Env) (x : Error)
      → h.setenv_error key value ≡ some x
      → setenv h key value env ≡ (some x, env)
  setenv-some key value env x e = rw (e, setenv) refl

  -- The environment has a host, and the path that it had.
  record HostIn (env env' : Env) : Type 0 where
    pub host : is_empty (getenv service_host env') ≡ false
    pub path : getenv config_path_variable env' ≡ getenv config_path_variable env

  -- A port, too.
  record AddressIn (env env' : Env) : Type 0 where
    pub host_in : HostIn env env'
    pub port : is_empty (getenv service_port env') ≡ false

  setenv-HostIn :
      (env : Env) (addr : String)
      → is_empty addr ≡ false
      → (setenv h service_host addr env).0 ≡ none
      → HostIn env (setenv h service_host addr env).1
  setenv-HostIn env addr full done = elim (Option-cases (h.setenv_error service_host addr)) [
    | inl e ↦ rw (setenv-none service_host addr env e) (record {
      host = rw getenv-insert full;
      path = getenv-insert service_host config_path_variable addr env;
    })
    | inr (x, e) ↦ absurd (not_done x (rw (setenv-some service_host addr env x e) at done))
  ]
    where
      not_done : (x : Error) → some x ≡ none → ⊥
      not_done x h = cc

  resolve-HostIn :
      (name : String) (r : Result (List String)) (env : Env)
      → Addresses
      → h.lookup_host name ≡ r
      → Ends (λ (x : Option Error × Env). x.0 ≡ none → HostIn env x.1) (resolve h r env)
  unfolding resolve
  resolve-HostIn name (err e) env all eq = tt
  resolve-HostIn name (ok []) env all eq = tt
  resolve-HostIn name (ok (addr ∷ addrs)) env all eq =
      setenv-HostIn env addr (all name addr addrs eq)

  ensure_host-HostIn :
      (env : Env)
      → Addresses
      → Ends (λ (x : Option Error × Env). x.0 ≡ none → HostIn env x.1) (ensure_host h env)
  unfolding ensure_host
  ensure_host-HostIn env all = elim (Bool-cases (is_empty (getenv service_host env))) [
    | inl empty ↦
        rw (empty, ensure_host)
          (resolve-HostIn "kubernetes.default.svc" (h.lookup_host "kubernetes.default.svc") env all
            refl)
    | inr full ↦ rw (full, ensure_host) (λ done. record { host = full; path = refl })
  ]

  ensure_port-AddressIn :
      (env env' : Env) → HostIn env env' → Ends (AddressIn env) (ensure_port h env')
  unfolding ensure_port or_panic
  ensure_port-AddressIn env env' i = elim (Bool-cases (is_empty (getenv service_port env'))) [
    | inr full ↦ rw (full, ensure_port) (record { host_in = i; port = full })
    | inl empty ↦
        rw (empty, ensure_port)
          (elim (Option-cases (h.setenv_error service_port "443")) [
            | inr (x, e) ↦ rw (setenv-some service_port "443" env' x e) tt
            | inl e ↦ rw (setenv-none service_port "443" env' e) (record {
              host_in = record {
                host = rw getenv-insert i.host;
                path = getenv-insert service_port config_path_variable "443" env' ∙ i.path;
              };
              port = rw getenv-insert refl;
            })
          ])
  ]

  -- With the same file, the result comes again.
  Again : String → Result h.Config × Env → Type 0
  Again f x = (c : h.Config) → x.0 ≡ ok c → get_cluster_config h f x.1 ≡ returns x

  in_cluster-Again :
      (f : String) (env env' : Env)
      → is_empty f ≡ true
      → is_empty (getenv config_path_variable env) ≡ true
      → AddressIn env env'
      → get_cluster_config h f env' ≡ returns (h.in_cluster_config env', env')
  unfolding get_cluster_config configured ensure_host ensure_port
  in_cluster-Again f env env' no_file no_path i =
      rw (no_file, get_cluster_config, i.host_in.path, no_path, i.host_in.host, i.port) refl

  configured-Again :
      (f : String) (env : Env) (x : Option Error × Env)
      → is_empty f ≡ true
      → is_empty (getenv config_path_variable env) ≡ true
      → (x.0 ≡ none → HostIn env x.1)
      → Ends (Again f) (configured h x)
  unfolding configured Again
  configured-Again f env (some e, env') no_file no_path i = λ c eq. absurd (cc eq)
  configured-Again f env (none, env') no_file no_path i =
      Ends-then (AddressIn env) (Again f) (ensure_port h env') _
        (ensure_port-AddressIn env env' (i refl))
        (λ env'' j c eq. in_cluster-Again f env env'' no_file no_path j)

  get_cluster_config-Again :
      (f : String) (env : Env) → Addresses → Ends (Again f) (get_cluster_config h f env)
  unfolding get_cluster_config Again
  get_cluster_config-Again f env all = elim (Bool-cases (is_empty f)) [
    | inr file ↦ rw (file, get_cluster_config) (λ c eq. rw (file, get_cluster_config) refl)
    | inl no_file ↦ elim (Bool-cases (is_empty (getenv config_path_variable env))) [
      | inr path ↦
          rw (no_file, path, get_cluster_config)
            (λ c eq. rw (no_file, path, get_cluster_config) refl)
      | inl no_path ↦
          rw (no_file, no_path, get_cluster_config)
            (Ends-then (λ (x : Option Error × Env). x.0 ≡ none → HostIn env x.1) (Again f)
              (ensure_host h env) (configured h) (ensure_host-HostIn env all)
              (λ x i. configured-Again f env x no_file no_path i))
    ]
  ]

  -- Where no address that the resolver returns is empty: if `GetClusterConfig` returns a configuration,
  -- then, called again with the same file in the environment that it left, it returns the same one and
  -- leaves the environment as it is.
  pub get_cluster_config_again :
      (f : String) (env env' : Env) (c : h.Config)
      → Addresses
      → get_cluster_config h f env ≡ returns (ok c, env')
      → get_cluster_config h f env' ≡ returns (ok c, env')
  unfolding Again
  get_cluster_config_again f env env' c all run =
      Ends-at (Again f) (get_cluster_config h f env) (ok c, env')
        (get_cluster_config-Again f env all) run c refl
