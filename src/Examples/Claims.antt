-- ===== src/Examples/Claims.antt =====
-- The theorems on claiming pods, applied.
use mathlib.Core.List.{Memᴰ}
use caffe2_operator.Prelude.{◌≡◌, refl, none, [], ◌∷◌, true}
use caffe2_operator.Prelude.Dict.{lookup}
use caffe2_operator.Prelude.Text.{replace_slashes}
use caffe2_operator.Controller.RefManager.{Manager, Session, matches_pod, claim_pods}
use caffe2_operator.Controller.RefManager.Claims.{Owned, Grounds}
use caffe2_operator.Controller.RefManager.Claimed.{
  matches_selector, claim_pods_sound, claim_pods_complete,
}
use caffe2_operator.Controller.RefManager.Effects.{Made, Allowed}
use caffe2_operator.Controller.Labels.{gen_labels, gen_owner_reference}
use caffe2_operator.Controller.Sync.{pod_manager, get_pods_for_caffe2_job}
use caffe2_operator.Controller.Sync.Claiming.{
  Reading, get_pods_for_caffe2_job_calls, worker_claimed,
}
use caffe2_operator.Examples.{
  job, job_meta, cluster, start, worker, worker-IsWorker, selects, is_value, has_label, has_labels,
  find_controller, cluster-FindsController, cluster-MatchesLabels,
}

abbrev session : Session
session = record { world = start; once = none }

worker_claimed_example : Memᴰ worker (get_pods_for_caffe2_job (cluster (worker ∷ [])) job start).0
unfolding cluster job selects gen_labels
worker_claimed_example =
    worker_claimed (cluster (worker ∷ [])) job "ns/job" selects (worker ∷ []) start refl refl refl
      worker 0 (cluster-MatchesLabels (worker ∷ [])) (cluster-FindsController (worker ∷ []))
      (Memᴰ.head refl) worker-IsWorker

get_pods_for_caffe2_job_calls_example :
    Made
      (Allowed
        (cluster (worker ∷ []))
        (pod_manager (cluster (worker ∷ [])) job selects)
        []
        (Reading job)
        (worker ∷ []))
      start
      (get_pods_for_caffe2_job (cluster (worker ∷ [])) job start).2
unfolding cluster job selects gen_labels
get_pods_for_caffe2_job_calls_example =
    get_pods_for_caffe2_job_calls (cluster (worker ∷ [])) job "ns/job" selects (worker ∷ []) start
      refl refl refl

abbrev manager : Manager
manager = record {
  controller = job_meta;
  selector = selects;
  can_adopt_func = none;
  group_version = "kubeflow.org/v1alpha1";
  kind = "Caffe2Job";
}

owned : Owned (cluster []) manager worker
unfolding Owned cluster find_controller worker gen_owner_reference job
owned = (gen_owner_reference job, refl, refl)

matched : matches_pod (cluster []) manager [] worker ≡ true
unfolding selects has_labels has_label is_value lookup worker gen_labels replace_slashes
matched = matches_selector (cluster []) manager worker refl

claim_pods_complete_example :
    Memᴰ worker (claim_pods (cluster []) manager [] (worker ∷ []) session).0
claim_pods_complete_example =
    claim_pods_complete (cluster []) manager [] (worker ∷ []) session worker (Memᴰ.head refl) owned
      matched

claim_pods_sound_example :
    Memᴰ worker (worker ∷ [])
    × Grounds
        (cluster [])
        manager
        []
        worker
        (claim_pods (cluster []) manager [] (worker ∷ []) session).2
claim_pods_sound_example = claim_pods_sound (cluster []) manager [] (worker ∷ []) session worker (
    claim_pods_complete (cluster []) manager [] (worker ∷ []) session worker (Memᴰ.head refl) owned
      matched)
