-- ===== src/Examples/Others.antt =====
-- The theorems on services and on retrying, applied.
use caffe2_operator.Prelude.{ℕ, zero, suc, ◌≡◌, true, false, none, some, [], ◌∷◌}
use caffe2_operator.Prelude.Int.{pos}
use caffe2_operator.Kube.{Service, no_meta}
use caffe2_operator.Controller.RefManager.{Manager, Session}
use caffe2_operator.Controller.Labels.{gen_owner_reference}
use caffe2_operator.Controller.ServiceRefManager.{matches_service, claim_services}
use mathlib.Core.List.{Memᴰ}
use caffe2_operator.Controller.ServiceRefManager.Claimed.{MayHave, claim_services_exactly}
use caffe2_operator.Controller.ServiceRefManager.Laws.{is_own}
use caffe2_operator.Util.Retry.{ConditionFunc, retry}
use caffe2_operator.Util.Retry.Laws.{Answer, retry-Answer}
use caffe2_operator.Examples.{job, job_meta, cluster, start, selects}

service : Service
unfolding job gen_owner_reference
service = record {
  meta = record no_meta {
    name = "s";
    namespace = "ns";
    labels = some (("app", "a") ∷ []);
    owner_references = gen_owner_reference job ∷ [];
  };
}

abbrev manager : Manager
manager = record {
  controller = record job_meta { deletion_timestamp = none };
  selector = selects;
  can_adopt_func = none;
  group_version = "kubeflow.org/v1alpha1";
  kind = "Caffe2Job";
}

abbrev session : Session
session = record { world = start; once = none }

claim_services_exactly_example :
    (Memᴰ service (claim_services (cluster []) manager [] (service ∷ []) session).0
      → Memᴰ service (service ∷ []) × MayHave (cluster []) manager [] service)
    × (Memᴰ service (service ∷ [])
        → is_own (cluster []) manager [] service ≡ true
        → matches_service (cluster []) manager [] service ≡ true
        → Memᴰ service (claim_services (cluster []) manager [] (service ∷ []) session).0)
claim_services_exactly_example =
    claim_services_exactly (cluster []) manager [] (service ∷ []) session service

-- It succeeds when its state has come down to zero.
count_down : ConditionFunc ℕ
count_down zero = ((true, none), zero)
count_down (suc n) = ((false, none), n)

retry-Answer_example : Answer ℕ count_down 3 3 2 (retry count_down (pos 3) 2)
retry-Answer_example = retry-Answer ℕ count_down 2 2
