-- ===== src/Controller/Sync/Claiming.antt =====
-- Which pods `get_pods_for_caffe2_job` returns for a job, and which calls it makes.
use mathlib.Core.List.{Memᴰ}
use caffe2_operator.Prelude.{
  ℕ, String, ◌≡◌, refl, sym, Bool, true, Option, none, some, List, [], ◌∷◌, arith,
}
use caffe2_operator.Prelude.Dict.{Dict, lookup}
use text.Mathlib.TextEquality.{eq_iff}
use caffe2_operator.Go.{Error, ok}
use caffe2_operator.Kube.{Labels, OwnerReference, Pod, get_label}
use caffe2_operator.Api.Types.{Caffe2Job}
use caffe2_operator.Controller.Cluster.{Call, get_job, World, Cluster}
use caffe2_operator.Controller.RefManager.{recheck_deletion_timestamp, claim_pods}
use caffe2_operator.Controller.RefManager.Claims.{Owned}
use caffe2_operator.Controller.RefManager.Claimed.{matches_selector, claim_pods_complete}
use caffe2_operator.Controller.RefManager.Effects.{
  Made, Made-more, Allowed, recheck, Clean, claim_each-Clean,
}
use caffe2_operator.Controller.Labels.{gen_labels, gen_owner_reference}
use caffe2_operator.Controller.Pods.Creation.{IsWorker}
use caffe2_operator.Controller.Sync.{
  fresh_job, pod_manager, claim_listed, claim_selected, get_pods_for_caffe2_job,
}

-- `labels.Selector.Matches` of a selector made from `MatchLabels`: it accepts a set of labels that has
-- all of them.
abbrev pub MatchesLabels : Cluster → Type 0
MatchesLabels k =
    (wanted : Dict String) (f : Labels → Bool) (labels : Labels)
    → k.selector wanted ≡ ok f
    → ((key v : String) → lookup key wanted ≡ some v → get_label key labels ≡ some v)
    → f labels ≡ true

-- `metav1.GetControllerOf` of a single reference that is a controller's.
abbrev pub FindsController : Cluster → Type 0
FindsController k =
    (ref : OwnerReference) → ref.controller ≡ some true → k.controller_of (ref ∷ []) ≡ some ref

some_eq : (g h : World → Option Error × World) → some g ≡ some h → g ≡ h
some_eq g h e = cc

-- The reading of the job.
abbrev pub Reading : Caffe2Job → Call → Type 0
Reading job c = c ≡ get_job job.meta.namespace job.meta.name

module _ (k : Cluster) (job : Caffe2Job) (job_key : String) (f : Labels → Bool) (pods : List Pod)
    (w : World) (key : k.key_func job.meta ≡ ok job_key)
    (selects : k.selector (gen_labels job.spec.runtime_id job_key) ≡ ok f)
    (lists : k.list_pods w.calls job.meta.namespace ≡ ok pods) where
  rechecks-Allowed :
      (g : World → Option Error × World) (w' : World)
      → (pod_manager k job f).can_adopt_func ≡ some g
      → Made (Allowed k (pod_manager k job f) [] (Reading job) pods) w w'
      → Made (Allowed k (pod_manager k job f) [] (Reading job) pods) w (g w').1
  unfolding pod_manager recheck_deletion_timestamp fresh_job
  rechecks-Allowed g w' e h =
      rw (sym (some_eq (recheck_deletion_timestamp k.time_text (fresh_job k job)) g e))
        (Made-more _ _ w w' _ refl (recheck refl) h)

  -- If the job has a key and a selector and the pods can be listed, each call that
  -- `getPodsForCaffe2Job` makes is one of these: reading the job again, adopting an orphan of the listed pods that matches, and
  -- releasing a listed pod that the job controls and that does not match; the last two only if the job
  -- has no deletion timestamp.
  pub get_pods_for_caffe2_job_calls :
      Made
        (Allowed k (pod_manager k job f) [] (Reading job) pods)
        w
        (get_pods_for_caffe2_job k job w).2
  unfolding get_pods_for_caffe2_job claim_selected claim_listed claim_pods Clean
  get_pods_for_caffe2_job_calls =
      rw (key, get_pods_for_caffe2_job)
        (rw (selects, claim_selected)
          (rw (lists, claim_listed)
            (claim_each-Clean k (pod_manager k job f) [] (Reading job) pods w rechecks-Allowed pods
              (record { world = w; once = none }) (λ x m. m)
              (record { calls = []; made = refl; each = tt }))))

  labelled :
      (pod : Pod) (i : ℕ)
      → IsWorker job job_key i pod
      → (label v : String) → lookup label (gen_labels job.spec.runtime_id job_key) ≡ some v
      → get_label label pod.meta.labels ≡ some v
  unfolding gen_labels lookup
  labelled pod i is label v h = ground (
    arith,
    is.of_group,
    is.of_job,
    is.of_run,
    eq_iff "group_name" label,
    eq_iff "caffe2_job_key" label,
    eq_iff "runtime_id" label,
  )

  owned :
      (pod : Pod) (i : ℕ)
      → FindsController k
      → IsWorker job job_key i pod
      → Owned k (pod_manager k job f) pod
  unfolding Owned gen_owner_reference pod_manager
  owned pod i finds is =
      (gen_owner_reference job, rw is.owner (finds (gen_owner_reference job) refl), refl)

  -- If the job has a key and a selector and the pods can be listed, `getPodsForCaffe2Job` returns every
  -- listed pod that has the labels and the owner of a pod made for the job, given that the selector of
  -- a set of labels accepts the pods that have these, and that the controller of a single controller
  -- reference is that one.
  pub worker_claimed :
      (pod : Pod) (i : ℕ)
      → MatchesLabels k
      → FindsController k
      → Memᴰ pod pods
      → IsWorker job job_key i pod
      → Memᴰ pod (get_pods_for_caffe2_job k job w).0
  unfolding get_pods_for_caffe2_job claim_selected claim_listed
  worker_claimed pod i matching finds mem is =
      rw (key, get_pods_for_caffe2_job)
        (rw (selects, claim_selected)
          (rw (lists, claim_listed)
            (claim_pods_complete k (pod_manager k job f) [] pods (record { world = w; once = none })
              pod mem (owned pod i finds is)
              (matches_selector k (pod_manager k job f) pod (
                matching (gen_labels job.spec.runtime_id job_key) f pod.meta.labels selects
                  (labelled pod i is))))))
