-- ===== src/Command/ClusterConfig/Clients.antt =====
-- The constructors of clients that get their configuration themselves.
use caffe2_operator.Prelude.{ap, ◌≡◌, refl}
use caffe2_operator.Go.{Result, ok, err, Outcome, returns, panics, ◌>>=◌}
use caffe2_operator.Command.ClusterConfig.{
  Env, Host, get_cluster_config, Must, made, exits, must_config, must_new_client,
}
use caffe2_operator.Command.ClusterConfig.Laws.{Addresses, get_cluster_config_again}

module _ (h : Host) {Client : Type 0} (or_die : h.Config → Outcome Client) (client : Client) where
  abbrev Done : Type 0
  Done = Must Client × Env

  abbrev with_of : Env → Done
  with_of env' = (made client, env')

  abbrev with_env : Env → Client → Outcome Done
  with_env env c = returns (made c, env)

  -- What it means that a client was made.
  Made : Env → Result h.Config × Env → Type 0
  Made env' r = (config : h.Config) × (r ≡ (ok config, env')) × (or_die config ≡ returns client)

  of_client :
      (m : Outcome Client) (env env' : Env)
      → (m >>= with_env env) ≡ returns (made client, env')
      → (m ≡ returns client) × (env ≡ env')
  of_client (panics p) env env' e = absurd (stopped e)
    where
      stopped : panics p ≡ Outcome.returns (with_of env') → ⊥
      stopped h = cc
  of_client (returns c) env env' e = (cc, cc)

  must_config_from :
      (r : Result h.Config × Env) (env' : Env)
      → must_config h or_die r ≡ returns (made client, env')
      → Made env' r
  unfolding must_config Made
  must_config_from (err x, env) env' e = absurd (exited e)
    where
      exited : Outcome.returns (exits x, env) ≡ returns (with_of env') → ⊥
      exited h = cc
  must_config_from (ok config, env) env' e =
      let (d, same) = of_client (or_die config) env env' e in
      (config, ap (λ v. (ok config, v)) same, d)

  must_from :
      (m : Outcome (Result h.Config × Env)) (env' : Env)
      → (m >>= must_config h or_die) ≡ returns (made client, env')
      → (r : Result h.Config × Env) × (m ≡ returns r) × Made env' r
  must_from (panics p) env' e = absurd (stopped e)
    where
      stopped : panics p ≡ Outcome.returns (with_of env') → ⊥
      stopped h = cc
  must_from (returns r) env' e = (r, refl, must_config_from r env' e)

  -- Where no address that the resolver returns is empty: where `MustNewKubeClient` makes a client, it
  -- makes the same client again in the environment that it left, and leaves that as it is.
  must_new_client_again :
      (env env' : Env)
      → Addresses h
      → must_new_client h or_die env ≡ returns (made client, env')
      → must_new_client h or_die env' ≡ returns (made client, env')
  unfolding must_new_client must_config Made
  must_new_client_again env env' all run =
      let (r, got, made_) = must_from (get_cluster_config h "" env) env' run in
      let (config, same, d) = made_ in
      let again = get_cluster_config_again h "" env env' config all (rw same at got) in
      rw (again, must_config, d) refl
