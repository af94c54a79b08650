-- ===== src/Controller/Sync/Fills.antt =====
-- A sync after which a key may be forgotten has asked for every missing pod.
use caffe2_operator.Prelude.{
  ℕ, ◌^◌, ◌<◌, String, ◌≡◌, refl, Bool, false, ◌||◌, Option, none, some, List, [], ◌∷◌,
}
use caffe2_operator.Prelude.Text.{is_empty}
use caffe2_operator.Go.{Error, ok, Outcome, returns, panics, Ends, Ends-at}
use caffe2_operator.Kube.{Pod}
use caffe2_operator.Api.Types.{Caffe2Job}
use caffe2_operator.Controller.Cluster.{update_job, World, Cluster}
use caffe2_operator.Controller.Status.{Stage}
use caffe2_operator.Controller.Pods.{reconcile_pods}
use caffe2_operator.Controller.Pods.Ready.{Ready}
use caffe2_operator.Controller.Pods.Effects.{workers_at}
use caffe2_operator.Controller.Pods.Filled.{reconcile_pods_fills}
use caffe2_operator.Controller.Pods.Requests.{Requested, Requested-later}
use caffe2_operator.Controller.Sync.{
  get_pods_for_caffe2_job, update_caffe2_job_status, reconcile_claimed, reconcile_caffe2_jobs,
  lister_get, Controller, reconcile_found, sync_found, sync_named, sync_caffe2_job,
}

module _ (k : Cluster) (job : Caffe2Job) (job_key : String) (ready : Ready job.spec)
    (key : k.key_func job.meta ≡ ok job_key) (bound : ready.replicas < 2 ^ 31) (i : ℕ)
    (in_range : i < ready.replicas) where
  -- A nil error comes with the request for a pod of replica `i`, after the world `w`.
  NilFills : World → Option Error × Stage → Type 0
  NilFills w x = x.0 ≡ none → Requested job job_key w i x.1.1

  reconcile_claimed-on :
      (pods : List Pod) (w : World) (m : Outcome (Option Error × Stage))
      → workers_at k pods i ≡ []
      → reconcile_pods k job pods job.spec.replica_specs w ≡ m
      → Ends (NilFills w) (reconcile_claimed k job (pods, none, w))
  unfolding reconcile_claimed update_caffe2_job_status NilFills
  reconcile_claimed-on pods w (panics p) empty run = rw (run, reconcile_claimed) tt
  reconcile_claimed-on pods w (returns (some e, st)) empty run =
      rw (run, reconcile_claimed) (λ h. absurd (cc h))
  reconcile_claimed-on pods w (returns (none, st)) empty run =
      rw (run, reconcile_claimed)
        (λ h.
          Requested-later job job_key (λ c. Unit) w i st.1 _
            (record { calls = update_job st.0 ∷ []; made = refl; each = (tt, tt) })
            (reconcile_pods_fills k job job_key pods ready w st i key bound run in_range empty))

  reconcile_claimed-Fills :
      (x : List Pod × Option Error × World)
      → workers_at k x.0 i ≡ []
      → Ends (NilFills x.2) (reconcile_claimed k job x)
  unfolding reconcile_claimed NilFills
  reconcile_claimed-Fills (pods, some e, w) empty = λ h. absurd (cc h)
  reconcile_claimed-Fills (pods, none, w) empty = reconcile_claimed-on pods w _ empty refl

  -- The same of a sync.
  SyncFills : World → Bool × Option Error × Controller → Type 0
  SyncFills w x = x.1 ≡ none → Requested job job_key w i x.2.world

  module _ (ns name : String) (c : Controller) (live : job.meta.deletion_timestamp ≡ none)
      (empty : workers_at k (get_pods_for_caffe2_job k job c.world).0 i ≡ []) where
    reconcile_found-on :
        (m : Outcome (Option Error × Stage))
        → reconcile_caffe2_jobs k job c.world ≡ m
        → Ends (NilFills (get_pods_for_caffe2_job k job c.world).2) m
        → Ends
            (SyncFills (get_pods_for_caffe2_job k job c.world).2)
            (reconcile_found k ns name job c)
    unfolding reconcile_found NilFills SyncFills
    reconcile_found-on (panics p) run f = rw (live, reconcile_found, run) tt
    reconcile_found-on (returns (some e, st)) run f =
        rw (live, reconcile_found, run) (λ h. absurd (cc h))
    reconcile_found-on (returns (none, st)) run f = simp (live, reconcile_found, run) f

    reconcile_found-Fills :
        Ends (SyncFills (get_pods_for_caffe2_job k job c.world).2) (reconcile_found k ns name job c)
    reconcile_found-Fills = reconcile_found-on (reconcile_caffe2_jobs k job c.world) refl (
        unfold reconcile_caffe2_jobs in
        reconcile_claimed-Fills (get_pods_for_caffe2_job k job c.world) empty)

-- Where `syncCaffe2Job` returns a nil error for the key of a cached job that has what the controller
-- dereferences, a key of its own, no deletion timestamp and fewer than 2 ^ 31 replicas: for each index
-- in range at which the pods that it claimed had no worker pod, it has then asked the server for a
-- worker pod of that index.
pub sync_caffe2_job_fills :
    (k : Cluster) (key ns name job_key : String) (job : Caffe2Job) (ready : Ready job.spec)
    (c c' : Controller) (forget : Bool) (i : ℕ)
    → k.split_key key ≡ ok (ns, name)
    → (is_empty ns || is_empty name) ≡ false
    → lister_get c.jobs ns name ≡ ok job
    → job.meta.deletion_timestamp ≡ none
    → k.key_func job.meta ≡ ok job_key
    → ready.replicas < 2 ^ 31
    → sync_caffe2_job k key c ≡ returns (forget, none, c')
    → i < ready.replicas
    → workers_at k (get_pods_for_caffe2_job k job c.world).0 i ≡ []
    → Requested job job_key (get_pods_for_caffe2_job k job c.world).2 i c'.world
unfolding sync_caffe2_job sync_named sync_found SyncFills
sync_caffe2_job_fills k key ns name job_key job ready c c' forget i split full found live has_key
      bound run in_range empty =
    Ends-at
      (SyncFills k job job_key ready has_key bound i in_range
        (get_pods_for_caffe2_job k job c.world).2)
      (sync_caffe2_job k key c) (forget, none, c')
      (rw (split, sync_caffe2_job)
        (rw (full, sync_named)
          (rw (found, sync_named)
            (reconcile_found-Fills k job job_key ready has_key bound i in_range ns name c live
              empty))))
      run refl
