-- ===== src/Controller/Pods/Reports.antt =====
-- What `reconcile_pods` reports when it returns nil.
use caffe2_operator.Prelude.{
  ℕ, ◌^◌, ◌<◌, ◌≡◌, refl, Option, none, some, List, keep, length, arith, suc, ◌+◌, ◌≤◌, [], ◌∷◌,
}
use caffe2_operator.Prelude.Int.{pos}
use caffe2_operator.Go.{Error, returns, Ends, Ends-then, Ends-deref, Ends-map, Ends-at}
use caffe2_operator.Kube.{Pod}
use caffe2_operator.Api.Types.{Caffe2ReplicaSpec, Caffe2Job}
use caffe2_operator.Controller.Cluster.{World, Cluster}
use caffe2_operator.Controller.Slices.{filter_pods_for_caffe2_replica_type}
use caffe2_operator.Controller.Slices.Laws.{has_index, table, get_pod_slices-table}
use caffe2_operator.Controller.Status.{
  Stage, with_statuses, initialize_replica_statuses, update_status,
}
use caffe2_operator.Controller.Status.Laws.{Reported, update_status_reports}
use caffe2_operator.Controller.Pods.{reconcile_slices, finish, reconcile_pods}
use caffe2_operator.Controller.Pods.Tally.{
  Tally, tally_slice, tally_from, status_of, Leaves, reconcile_slices-Leaves,
}

abbrev pub zero_tally : Tally
zero_tally = record { active = 0; succeeded = 0; failed = 0 }

length-table {ℓ} : {A : Type ℓ} (i n : ℕ) (f : ℕ → A) → length (table i n f) ≡ n
length-table i ℕ.zero f = refl
length-table i (ℕ.suc n) f = omega (arith, length-table {ℓ} (ℕ.suc i) n f)

module _ (k : Cluster) (job : Caffe2Job) (pods : List Pod) (replicas : ℕ) where
  -- The pods of each index, and what they count.
  abbrev pub by_index : List (List Pod)
  by_index =
      table 0 replicas
        (λ i. keep (has_index i) (filter_pods_for_caffe2_replica_type k pods "worker"))

  abbrev pub totals : Tally
  totals = tally_from zero_tally by_index

  -- A nil error comes with the counters of the pods, and with the conditions that they call for.
  abbrev pub Reports : Option Error × Stage → Type 0
  Reports r =
      r.0 ≡ none
      → (w : World) × Reported (status_of totals) (pos replicas)
          (with_statuses job (status_of totals), w) r.1.0

  finish-Reports :
      (spec : Caffe2ReplicaSpec) (x : Option Error × Stage)
      → Leaves k spec (initialize_replica_statuses job) totals x
      → Ends Reports (finish k (pos replicas) x)
  unfolding finish initialize_replica_statuses
  finish-Reports spec (some e, st) h = λ e'. cc
  finish-Reports spec (none, (job', w)) h = rw (h refl) (
      Ends-map
        (λ x.
          (x.0 ≡ none)
          × Reported (status_of totals) (pos replicas) (with_statuses job (status_of totals), w)
              x.1.0)
        Reports (update_status k (pos replicas) (with_statuses job (status_of totals), w))
        (λ x r e. (w, r.1))
        (update_status_reports k (with_statuses job (status_of totals)) w (pos replicas)
          (status_of totals) refl))

  reconcile_pods-Reports :
      (spec : Caffe2ReplicaSpec) (w : World)
      → spec.replicas ≡ some (pos replicas)
      → replicas < 2 ^ 31
      → Ends Reports (reconcile_pods k job pods (some spec) w)
  unfolding reconcile_pods
  reconcile_pods-Reports spec w h bound = Ends-deref Reports spec.replicas (pos replicas) _ h (
      rw get_pod_slices-table (
        Ends-then (Leaves k spec (initialize_replica_statuses job) totals) Reports
          (reconcile_slices k spec 0 by_index (initialize_replica_statuses job, w))
          (finish k (pos replicas))
          (reconcile_slices-Leaves k spec 0 by_index (initialize_replica_statuses job) w zero_tally
            (unfold initialize_replica_statuses in refl)
            (omega (
              arith,
              length-table {0} 0 replicas
                  (λ i. keep (has_index i) (filter_pods_for_caffe2_replica_type k pods "worker")),
            )))
          (finish-Reports spec)))

  pub reconcile_pods_reports :
      (spec : Caffe2ReplicaSpec) (w : World) (st : Stage)
      → spec.replicas ≡ some (pos replicas)
      → replicas < 2 ^ 31
      → reconcile_pods k job pods (some spec) w ≡ returns (none, st)
      → (w' : World) × Reported
          (status_of totals)
          (pos replicas)
          (with_statuses job (status_of totals), w')
          st.0
  reconcile_pods_reports spec w st h bound run =
      Ends-at Reports (reconcile_pods k job pods (some spec) w) (none, st)
        (reconcile_pods-Reports spec w h bound) run refl

-- The counters of a tally, together.
abbrev pub counted : Tally → ℕ
counted t = t.active + t.succeeded + t.failed

counted-tally_from :
    (t : Tally) (ss : List (List Pod)) → counted (tally_from t ss) ≤ counted t + length ss
counted-tally_from t [] = omega arith
counted-tally_from t (s ∷ ss) =
    omega (arith, counted-tally_from (tally_slice s t) ss, counted-tally_slice s t)
  where
    counted-tally_slice : (s : List Pod) (t : Tally) → counted (tally_slice s t) ≤ suc (counted t)
    counted-tally_slice [] t = omega arith
    counted-tally_slice (pod ∷ []) t = ground arith
    counted-tally_slice (pod ∷ pod' ∷ pods) t = omega arith

-- For a number of replicas that an `int32` holds and that is not negative: where `reconcilePods`
-- returns nil, the counters of the job are not negative, and together they are at most the number of
-- replicas.
pub reconcile_pods_bounds :
    (k : Cluster) (job : Caffe2Job) (pods : List Pod) (replicas : ℕ) (spec : Caffe2ReplicaSpec)
    (w : World) (st : Stage)
    → spec.replicas ≡ some (pos replicas)
    → replicas < 2 ^ 31
    → reconcile_pods k job pods (some spec) w ≡ returns (none, st)
    → (t : Tally) × (st.0.status.replica_statuses ≡ some (status_of t)) × (counted t ≤ replicas)
reconcile_pods_bounds k job pods replicas spec w st h bound run =
    let (w', r) = reconcile_pods_reports k job pods replicas spec w st h bound run in
    (
      totals k job pods replicas,
      r.statuses,
      omega (
        arith,
        counted-tally_from zero_tally (by_index k job pods replicas),
        length-table {0} 0 replicas
            (λ i. keep (has_index i) (filter_pods_for_caffe2_replica_type k pods "worker")),
      ),
    )
