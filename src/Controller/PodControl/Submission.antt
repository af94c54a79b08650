-- ===== src/Controller/PodControl/Submission.antt =====
-- What creating a pod from a template asks of the server.
use caffe2_operator.Prelude.{
  String, Option, none, false, arith, ◌≡◌, refl, ◌⊎◌, inl, inr, some, [], ◌∷◌, Bool-cases,
  Option-cases,
}
use caffe2_operator.Prelude.Text.{◌<>◌}
use caffe2_operator.Go.{Error, is_timeout, error_text, Result, ok, err}
use caffe2_operator.Kube.{OwnerReference, ObjectMeta, PodTemplateSpec, Pod, no_meta, unset}
use caffe2_operator.Controller.Cluster.{create_pod, record_event, called, World, Cluster}
use caffe2_operator.Controller.PodControl.{
  copy_map, get_pods_label_set, get_pods_annotation_set, get_pods_finalizers, get_pods_prefix,
  get_pod_from_template, after_create, submit, validate_controller_ref,
  create_pods_with_controller_ref,
}

-- The two calls of a creation: the pod, and an event about it.
pub record Submitted (ns : String) (w w' : World) (pod : Pod) : Type 0 where
  pub event_type : String
  pub reason : String
  pub text : String
  pub made : w'.calls ≡ record_event event_type reason text ∷ create_pod ns pod ∷ w.calls

-- A pod made from a template for an owner.
pub record FromTemplate (t : PodTemplateSpec) (ref : OwnerReference) (pod : Pod) : Type 0 where
  pub labels : pod.meta.labels ≡ some (copy_map t.meta.labels)
  pub owner : pod.meta.owner_references ≡ ref ∷ []

-- `validateControllerRef` makes its errors itself.
validate_controller_ref_local :
    (ref : Option OwnerReference) (e : Error)
    → validate_controller_ref ref ≡ some e
    → is_timeout e ≡ false
unfolding validate_controller_ref
validate_controller_ref_local none e h = ground arith
validate_controller_ref_local (some ref) e h = ground arith

-- An error that the operator makes itself, before any call.
abbrev pub Refused : World → Option Error × World → Type 0
Refused w r = (e : Error) × (r ≡ (some e, w)) × (is_timeout e ≡ false)

module _ (k : Cluster) where
  after_create-Submitted :
      (ns : String) (meta : ObjectMeta) (pod : Pod) (w : World) (reply : Result Pod)
      → Submitted ns w (after_create k (some meta) (reply, called (create_pod ns pod) w)).1 pod
  unfolding after_create
  after_create-Submitted ns meta pod w (ok p) = record {
    event_type = "Normal";
    reason = "SuccessfulCreate";
    text = "Created pod: " <> p.meta.name;
    made = refl;
  }
  after_create-Submitted ns meta pod w (err e) = record {
    event_type = "Warning";
    reason = "FailedCreate";
    text = "Error creating: " <> error_text e;
    made = refl;
  }

  submit-cases :
      (ns : String) (meta : ObjectMeta) (pod : Pod) (w : World)
      → Refused w (submit k ns (some meta) pod w)
        ⊎ Submitted ns w (submit k ns (some meta) pod w).1 pod
  unfolding submit
  submit-cases ns meta pod w = elim (Bool-cases (k.selects_everything pod.meta.labels)) [
    | inl all ↦ inl (rw (all, submit) (_, refl, refl))
    | inr some_ ↦ inr (
        rw (some_, submit)
          (after_create-Submitted ns meta pod w (k.reply_create_pod w.calls ns pod)))
  ]

  template_pod : PodTemplateSpec → ObjectMeta → OwnerReference → Pod
  unfolding get_pod_from_template
  template_pod t meta ref = record {
    meta = record no_meta {
      labels = some (get_pods_label_set t);
      annotations = some (get_pods_annotation_set t);
      generate_name = get_pods_prefix k meta.name;
      finalizers = get_pods_finalizers t;
      owner_references = ref ∷ [];
    };
    spec = t.spec;
    phase = unset;
  }

  -- A creation is refused, or it sends a pod made from the template.
  pub create-cases :
      (ns : String) (t : PodTemplateSpec) (meta : ObjectMeta) (ref : OwnerReference) (w : World)
      → let r = create_pods_with_controller_ref k ns t (some meta) (some ref) w in
        Refused w r ⊎ ((pod : Pod) × FromTemplate t ref pod × Submitted ns w r.1 pod)
  unfolding create_pods_with_controller_ref template_pod
  create-cases ns t meta ref w = elim (Option-cases (validate_controller_ref (some ref))) [
    | inr (e, bad) ↦ inl (
        rw (bad, create_pods_with_controller_ref)
          (e, refl, validate_controller_ref_local (some ref) e bad))
    | inl good ↦
        rw (good, create_pods_with_controller_ref)
          (elim (submit-cases ns meta (template_pod t meta ref) w) [
            | inl same ↦ inl same
            | inr calls ↦
                inr (template_pod t meta ref, record { labels = refl; owner = refl }, calls)
          ])
  ]
