-- ===== src/Controller/Slices.antt =====
-- Sorting the pods of a job by their replica index: parts of pkg/controller/controller_pod.go.
pub mod Laws
use caffe2_operator.Prelude.{
  ℕ, zero, suc, String, Bool, Option, none, some, List, [], ◌∷◌, ◌++◌, replicate, if◌then◌else◌,
  ltb,
}
use caffe2_operator.Prelude.Dict.{insert}
use caffe2_operator.Prelude.Int.{ℤ, pos, negsuc}
use caffe2_operator.Prelude.Decimal.{atoi}
use caffe2_operator.Go.{Result, ok, err, Outcome, returns, panics, negative_length}
use caffe2_operator.Kube.{Labels, get_label, Pod}
use caffe2_operator.Controller.Cluster.{Cluster}
use caffe2_operator.Controller.Labels.{caffe2_replica_type_label, caffe2_replica_index_label}

-- `podSlices[index] = append(podSlices[index], pod)`
unfoldable pub append_at : ℕ → Pod → List (List Pod) → List (List Pod)
append_at i pod [] = []
append_at zero pod (s ∷ ss) = (s ++ pod ∷ []) ∷ ss
append_at (suc i) pod (s ∷ ss) = s ∷ append_at i pod ss

place_at : ℕ → Pod → Option ℤ → List (List Pod) → List (List Pod)
unfolding append_at
place_at replicas pod (some (pos i)) slices =
    if ltb i replicas then append_at i pod slices else slices
place_at replicas pod (some (negsuc i)) slices = slices
place_at replicas pod none slices = slices

-- The value that `strconv.Atoi` gives of the index label, if there is one.
unfoldable pub index_of : Pod → Option ℤ
index_of pod = elim (get_label caffe2_replica_index_label pod.meta.labels) [
  | none ↦ none
  | some text ↦ atoi text
]

-- The loop of `getPodSlices`.
unfoldable pub place_all : ℕ → List Pod → List (List Pod) → List (List Pod)
unfolding place_at
place_all replicas [] slices = slices
place_all replicas (pod ∷ pods) slices =
    place_all replicas pods (place_at replicas pod (index_of pod) slices)

-- `getPodSlices`; `make` panics on a negative length.
unfoldable pub get_pod_slices : List Pod → ℤ → Outcome (List (List Pod))
unfolding place_all
get_pod_slices pods (pos replicas) = returns (place_all replicas pods (replicate replicas []))
get_pod_slices pods (negsuc n) = panics negative_length

-- The loop of `filterPodsForCaffe2ReplicaType`, over the selector of each round.
filter_with : Result (Labels → Bool) → List Pod → List Pod
filter_with (err e) pods = []
filter_with (ok matches) [] = []
filter_with (ok matches) (pod ∷ pods) =
    if matches pod.meta.labels
    then pod ∷ filter_with (ok matches) pods
    else filter_with (ok matches) pods

-- `filterPodsForCaffe2ReplicaType`
unfoldable pub filter_pods_for_caffe2_replica_type : Cluster → List Pod → String → List Pod
unfolding filter_with
filter_pods_for_caffe2_replica_type k pods type =
    filter_with (k.selector ((caffe2_replica_type_label, type) ∷ [])) pods
