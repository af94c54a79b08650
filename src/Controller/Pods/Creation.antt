-- ===== src/Controller/Pods/Creation.antt =====
-- What `create_new_pod` asks the server to create.
use caffe2_operator.Prelude.{
  false, ◌∙◌, ℕ, ◌^◌, ◌<◌, String, ◌≡◌, refl, ◌⊎◌, inl, inr, Option, none, some, List, [], ◌∷◌,
  arith, Bool-cases,
}
use caffe2_operator.Prelude.Dict.{Dict, lookup, insert, lookup-insert_all}
use caffe2_operator.Prelude.Int.{pos}
use caffe2_operator.Prelude.Decimal.{itoa}
use caffe2_operator.Prelude.Decimal.RoundTrip.{atoi-itoa}
use caffe2_operator.Prelude.Text.{is_empty, replace_slashes}
use caffe2_operator.Go.{Error, ok, deref, Ends, Ends-bind, Ends-map}
use caffe2_operator.Kube.{Container, PodTemplateSpec, Pod, get_label}
use caffe2_operator.Api.Types.{Caffe2ReplicaSpec, Caffe2Job, group_name}
use caffe2_operator.Controller.Cluster.{World, Cluster}
use caffe2_operator.Controller.PodControl.Submission.{
  Refused, Submitted, FromTemplate, create-cases,
}
use caffe2_operator.Controller.Config.{gen_caffe2_config_json_str}
use caffe2_operator.Controller.PodControl.{copy_map, create_pods_with_controller_ref}
use caffe2_operator.Controller.Labels.{
  caffe2_replica_type_label, caffe2_replica_index_label, gen_owner_reference,
}
use caffe2_operator.Controller.Slices.{index_of}
use caffe2_operator.Controller.Pods.{
  worker_labels, label_template, add_backend_env, add_config_env, with_containers, forgive_timeout,
  create_configured, create_for_key, create_new_pod,
}

-- A pod that belongs to replica `i` of a job: the labels by which the controller finds it again, and
-- the job as its only owner.
pub record IsWorker (job : Caffe2Job) (job_key : String) (i : ℕ) (pod : Pod) : Type 0 where
  pub at_index : index_of pod ≡ some (pos i)
  pub of_type : get_label caffe2_replica_type_label pod.meta.labels ≡ some "worker"
  pub of_group : get_label "group_name" pod.meta.labels ≡ some group_name
  pub of_job : get_label "caffe2_job_key" pod.meta.labels ≡ some (replace_slashes job_key)
  pub of_run : get_label "runtime_id" pod.meta.labels ≡ some job.spec.runtime_id
  pub owner : pod.meta.owner_references ≡ gen_owner_reference job ∷ []

module _ (id job_key index : String) (t : PodTemplateSpec) where
  -- The labels of the pod that is made from the labelled template.
  pod_labels : Dict String
  unfolding copy_map label_template
  pod_labels = copy_map (label_template (worker_labels id job_key "worker" index) t).meta.labels

  lookup-pod_labels :
      (j v : String)
      → lookup j (worker_labels id job_key "worker" index) ≡ some v
      → lookup j pod_labels ≡ some v
  unfolding pod_labels
  lookup-pod_labels j v h = simp (lookup-insert_all, h)

  index-pod_labels : lookup caffe2_replica_index_label pod_labels ≡ some index
  index-pod_labels =
      lookup-pod_labels caffe2_replica_index_label index
        (unfold worker_labels lookup insert in refl)

forgive-Refused : (w : World) (r : Option Error × World) → Refused w r → forgive_timeout r ≡ r
unfolding forgive_timeout
forgive-Refused w r (e, h, local) = rw h (rw local refl)

forgive-world : (r : Option Error × World) → (forgive_timeout r).1 ≡ r.1
unfolding forgive_timeout
forgive-world (none, w) = refl
forgive-world (some e, w) = ground arith

module _ (k : Cluster) (job : Caffe2Job) (job_key : String) (i : ℕ) where
  -- No call, or the creation of one pod of replica `i`.
  unfoldable pub Creates : World → Option Error × World → Type 0
  Creates w r =
      (r.1 ≡ w)
      ⊎ ((pod : Pod) × IsWorker job job_key i pod × Submitted job.meta.namespace w r.1 pod)

  -- The creation of one pod of replica `i`, or an error without a call.
  unfoldable pub Fills : World → Option Error × World → Type 0
  Fills w r =
      ((e : Error) × (r ≡ (some e, w)))
      ⊎ ((pod : Pod) × IsWorker job job_key i pod × Submitted job.meta.namespace w r.1 pod)

  Fills→Creates : (w : World) (r : Option Error × World) → Fills w r → Creates w r
  unfolding Fills Creates
  Fills→Creates w r (inl (e, h)) = inl (rw h refl)
  Fills→Creates w r (inr made) = inr made

  module _ (in_range : i < 2 ^ 63) where
    module _ (t : PodTemplateSpec) (pod : Pod)
        (f : FromTemplate
          (label_template (worker_labels job.spec.runtime_id job_key "worker" (itoa i)) t)
          (gen_owner_reference job)
          pod) where
      label_found :
          (j v : String)
          → lookup j (worker_labels job.spec.runtime_id job_key "worker" (itoa i)) ≡ some v
          → get_label j pod.meta.labels ≡ some v
      unfolding pod_labels
      label_found j v h =
          rw f.labels (lookup-pod_labels job.spec.runtime_id job_key (itoa i) t j v h)

      index_found : index_of pod ≡ some (pos i)
      unfolding index_of
      index_found =
          rw
            (
              label_found caffe2_replica_index_label (itoa i)
                  (unfold worker_labels lookup insert in refl),
              index_of,
            )
            (atoi-itoa i in_range)

      FromTemplate-IsWorker : IsWorker job job_key i pod
      FromTemplate-IsWorker =
          unfold worker_labels lookup insert in
          record {
            at_index = index_found;
            of_type = label_found caffe2_replica_type_label "worker" refl;
            of_group = label_found "group_name" group_name refl;
            of_job = label_found "caffe2_job_key" (replace_slashes job_key) refl;
            of_run = label_found "runtime_id" job.spec.runtime_id refl;
            owner = f.owner;
          }

    created :
        (t : PodTemplateSpec) (t' : PodTemplateSpec) (w : World)
        → t'.meta
          ≡ (label_template (worker_labels job.spec.runtime_id job_key "worker" (itoa i)) t).meta
        → Fills w (
            forgive_timeout (
              create_pods_with_controller_ref k job.meta.namespace t'
                (some job.meta)
                (some (gen_owner_reference job))
                w))
    unfolding Fills
    created t t' w e =
        elim (create-cases k job.meta.namespace t' job.meta (gen_owner_reference job) w) [
          | inl refused ↦ inl (refused.0, forgive-Refused w _ refused ∙ refused.1)
          | inr (pod, f, calls) ↦ inr (
            pod,
            FromTemplate-IsWorker t pod (record { labels = rw e at f.labels; owner = f.owner }),
            rw forgive-world calls,
          )
        ]

    pub create_configured-Fills :
        (t : PodTemplateSpec) (cs : List Container) (config : String) (w : World)
        → is_empty config ≡ false
        → Ends (Fills w) (
            create_configured k job
              (with_containers
                (label_template (worker_labels job.spec.runtime_id job_key "worker" (itoa i)) t)
                cs)
              config
              w)
    unfolding create_configured with_containers
    create_configured-Fills t cs config w text =
        rw (text, create_configured)
          (created t
            (with_containers
              (label_template (worker_labels job.spec.runtime_id job_key "worker" (itoa i)) t)
              (add_config_env config cs))
            w refl)

    create_configured-Creates :
        (t : PodTemplateSpec) (cs : List Container) (config : String) (w : World)
        → Ends (Creates w) (
            create_configured k job
              (with_containers
                (label_template (worker_labels job.spec.runtime_id job_key "worker" (itoa i)) t)
                cs)
              config
              w)
    unfolding create_configured with_containers
    create_configured-Creates t cs config w = elim (Bool-cases (is_empty config)) [
      | inl none_ ↦ rw (none_, create_configured) (unfold Creates in inl refl)
      | inr text ↦
          Ends-map (Fills w) (Creates w) _ (Fills→Creates w)
            (create_configured-Fills t cs config w text)
    ]

    create_for_key-Creates :
        (spec : Caffe2ReplicaSpec) (w : World)
        → Ends (Creates w) (create_for_key k job job_key "worker" (itoa i) spec w)
    unfolding create_for_key
    create_for_key-Creates spec w = Ends-bind (Creates w) (deref spec.template) _ λ t.
        Ends-bind (Creates w) (add_backend_env job spec (itoa i) _) _ λ cs.
          Ends-bind (Creates w) (gen_caffe2_config_json_str k job "worker" (itoa i)) _
            λ config. create_configured-Creates t cs config w

    -- On a job that has a key and for `i` below 2 ^ 63: if `createNewPod` for replica `i` returns, it
    -- has made no call, or it has asked the server for one pod in the job's namespace and recorded one
    -- event. That pod has the job as its only owner and the labels of the job and of the workers, and
    -- `getPodSlices` reads its index label as `i`.
    pub create_new_pod_calls :
        (spec : Caffe2ReplicaSpec) (w : World)
        → k.key_func job.meta ≡ ok job_key
        → Ends (Creates w) (create_new_pod k job "worker" (itoa i) spec w)
    unfolding create_new_pod
    create_new_pod_calls spec w e = rw (e, create_new_pod) (create_for_key-Creates spec w)
