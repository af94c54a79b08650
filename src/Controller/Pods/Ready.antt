-- ===== src/Controller/Pods/Ready.antt =====
-- A job that can be reconciled, and why creating a pod of it does not panic.
use caffe2_operator.Prelude.{
  ℕ, String, ◌≡◌, some, List, [], ◌∷◌, Option-cases, inl, inr, Bool-cases,
}
use caffe2_operator.Prelude.Int.{pos}
use caffe2_operator.Prelude.Decimal.{parse_int}
use caffe2_operator.Prelude.Text.{is_empty}
use caffe2_operator.Go.{Runs, Runs-then, Runs-deref, Result-cases}
use caffe2_operator.Kube.{Container, PodTemplateSpec}
use caffe2_operator.Api.Types.{Caffe2BackendSpec, Caffe2ReplicaSpec, Caffe2JobSpec, Caffe2Job}
use caffe2_operator.Controller.Cluster.{World, Cluster}
use caffe2_operator.Controller.Config.{
  cluster_of, replica_names, gen_cluster_spec, gen_caffe2_config_json_str,
}
use caffe2_operator.Controller.Pods.{
  worker_labels, label_template, with_containers, add_backend_env, create_configured,
  create_for_key, create_new_pod,
}

-- The pointers that the controller dereferences are there, and the number of replicas is not negative.
pub record Ready (s : Caffe2JobSpec) : Type 0 where
  pub spec : Caffe2ReplicaSpec
  pub replicas : ℕ
  pub template : PodTemplateSpec
  pub backend : Caffe2BackendSpec
  pub has_spec : s.replica_specs ≡ some spec
  pub has_replicas : spec.replicas ≡ some (pos replicas)
  pub has_template : spec.template ≡ some template
  pub has_backend : s.backend ≡ some backend

-- No claim on the result.
unfoldable pub Anything {ℓ} : {A : Type ℓ} → A → Type 0
Anything a = Unit

module _ (job : Caffe2Job) (ready : Ready job.spec) where
  add_backend_env-Runs :
      (index : String) (cs : List Container)
      → Runs Anything (add_backend_env job ready.spec index cs)
  unfolding add_backend_env Anything
  add_backend_env-Runs index [] = tt
  add_backend_env-Runs index (c ∷ cs) =
      Runs-deref Anything job.spec.backend ready.backend _ ready.has_backend (
        Runs-deref Anything ready.spec.replicas (pos ready.replicas) _ ready.has_replicas (
          Runs-then Anything Anything (add_backend_env job ready.spec index cs) _
            (add_backend_env-Runs index cs) (λ cs' h. tt)))

  cluster_of-Runs : (job_key : String) → Runs Anything (cluster_of job job_key)
  unfolding cluster_of Anything replica_names
  cluster_of-Runs job_key =
      Runs-deref Anything job.spec.replica_specs ready.spec _ ready.has_spec
        (Runs-deref Anything ready.spec.replicas (pos ready.replicas) _ ready.has_replicas tt)

  module _ (k : Cluster) where
    gen_cluster_spec-Runs : Runs Anything (gen_cluster_spec k job)
    unfolding gen_cluster_spec Anything
    gen_cluster_spec-Runs = elim (Result-cases (k.key_func job.meta)) [
      | inl (e, h) ↦ rw (h, gen_cluster_spec) tt
      | inr (job_key, h) ↦ rw (h, gen_cluster_spec) (cluster_of-Runs job_key)
    ]

    config-Runs :
        (rtype index : String) → Runs Anything (gen_caffe2_config_json_str k job rtype index)
    unfolding gen_caffe2_config_json_str Anything
    config-Runs rtype index = elim (Option-cases (parse_int 32 index)) [
      | inl h ↦ rw (h, gen_caffe2_config_json_str) tt
      | inr (i, h) ↦
          rw (h, gen_caffe2_config_json_str)
            (Runs-then Anything Anything (gen_cluster_spec k job) _ gen_cluster_spec-Runs
              (λ c h'. tt))
    ]

    create_configured-Runs :
        (t : PodTemplateSpec) (config : String) (w : World)
        → Runs Anything (create_configured k job t config w)
    unfolding create_configured Anything
    create_configured-Runs t config w = elim (Bool-cases (is_empty config)) [
      | inl none_ ↦ rw (none_, create_configured) tt
      | inr text ↦ rw (text, create_configured) tt
    ]

    pub create_new_pod-Runs :
        (rt index : String) (w : World) → Runs Anything (create_new_pod k job rt index ready.spec w)
    unfolding create_new_pod create_for_key
    create_new_pod-Runs rt index w = elim (Result-cases (k.key_func job.meta)) [
      | inl (e, h) ↦ rw (h, create_new_pod) (unfold Anything in tt)
      | inr (job_key, h) ↦
          rw (h, create_new_pod)
            let t =
                label_template (worker_labels job.spec.runtime_id job_key rt index)
                  ready.template in
              (Runs-deref Anything ready.spec.template ready.template _ ready.has_template (
                Runs-then Anything Anything (add_backend_env job ready.spec index t.spec.containers)
                  _ (add_backend_env-Runs index t.spec.containers)
                  λ cs h''.
                    Runs-then Anything Anything (gen_caffe2_config_json_str k job rt index) _
                      (config-Runs rt index)
                      λ config h'. create_configured-Runs (with_containers t cs) config w))
    ]
