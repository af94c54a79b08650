-- ===== src/Controller/New/Laws.antt =====
-- That the handlers of `New` do what the running system does.
use caffe2_operator.Prelude.{String, true, false, List, [], ◌∷◌, ◌≡◌, refl, inl, inr, Bool-cases}
use caffe2_operator.Go.{Outcome, returns, ◌>>=◌, >>=_congr}
use caffe2_operator.Kube.{Pod}
use caffe2_operator.Controller.Cluster.{Cluster}
use caffe2_operator.Controller.Sync.{Controller, process_next_work_item}
use caffe2_operator.Controller.Events.{pod_filter, update_caffe2_job, update_pod, delete_pod}
use caffe2_operator.Controller.System.{
  Event, job_cached, job_dropped, job_added, job_updated, job_deleted, pod_added, pod_updated,
  pod_deleted, worker_round, pod_changed, handle, run_events,
}
use caffe2_operator.Controller.New.{
  Object, job_object, pod_object, tombstone, FilteringHandler, enqueue_object, new,
}

-- What an informer notices.
pub data Notice : Type 0 where
  appeared : Object → Notice
  changed : (old cur : Object) → Notice
  vanished : Object → Notice

-- How `cache.FilteringResourceEventHandler` passes a notice on, by its filter.
pub record Delivers (deliver : FilteringHandler → Notice → Controller → Outcome Controller)
    : Type 0 where
  pub on_add :
      (h : FilteringHandler) (obj : Object) (c : Controller)
      → h.filter_func obj ≡ true
      → deliver h (appeared obj) c ≡ h.add_func obj c
  pub on_add_filtered :
      (h : FilteringHandler) (obj : Object) (c : Controller)
      → h.filter_func obj ≡ false
      → deliver h (appeared obj) c ≡ returns c
  pub on_update :
      (h : FilteringHandler) (old cur : Object) (c : Controller)
      → h.filter_func old ≡ true
      → h.filter_func cur ≡ true
      → deliver h (changed old cur) c ≡ h.update_func old cur c
  pub on_update_begins :
      (h : FilteringHandler) (old cur : Object) (c : Controller)
      → h.filter_func old ≡ false
      → h.filter_func cur ≡ true
      → deliver h (changed old cur) c ≡ h.add_func cur c
  pub on_update_ends :
      (h : FilteringHandler) (old cur : Object) (c : Controller)
      → h.filter_func old ≡ true
      → h.filter_func cur ≡ false
      → deliver h (changed old cur) c ≡ h.delete_func old c
  pub on_update_filtered :
      (h : FilteringHandler) (old cur : Object) (c : Controller)
      → h.filter_func old ≡ false
      → h.filter_func cur ≡ false
      → deliver h (changed old cur) c ≡ returns c
  pub on_delete :
      (h : FilteringHandler) (obj : Object) (c : Controller)
      → h.filter_func obj ≡ true
      → deliver h (vanished obj) c ≡ h.delete_func obj c
  pub on_delete_filtered :
      (h : FilteringHandler) (obj : Object) (c : Controller)
      → h.filter_func obj ≡ false
      → deliver h (vanished obj) c ≡ returns c

module _ (k : Cluster) (deliver : FilteringHandler → Notice → Controller → Outcome Controller) where
  -- A notification as the informers deliver it. The cache is the informer's own; of the objects of an
  -- update and of a deletion no handler asks whether it holds them.
  abbrev pub notify : Event → Controller → Outcome Controller
  notify (job_cached job) c = handle k (job_cached job) c
  notify (job_dropped job) c = handle k (job_dropped job) c
  notify (job_added held job) c = deliver (new k).job_handler (appeared (job_object held job)) c
  notify (job_updated old cur) c =
      deliver (new k).job_handler (changed (job_object false old) (job_object true cur)) c
  notify (job_deleted job) c = deliver (new k).job_handler (vanished (job_object false job)) c
  notify (pod_added pod) c = deliver (new k).pod_handler (appeared (pod_object pod)) c
  notify (pod_updated old cur) c =
      deliver (new k).pod_handler (changed (pod_object old) (pod_object cur)) c
  notify (pod_deleted pod) c = deliver (new k).pod_handler (vanished (pod_object pod)) c
  notify worker_round c = process_next_work_item k c >>= λ r. returns r.1

  abbrev pub notify_all : List Event → Controller → Outcome Controller
  notify_all [] c = returns c
  notify_all (e ∷ es) c = notify e c >>= λ c'. notify_all es c'

  module _ (law : Delivers deliver) where
    pod_updated-notify :
        (old cur : Pod) (c : Controller)
        → notify (pod_updated old cur) c ≡ handle k (pod_updated old cur) c
    unfolding handle new pod_changed update_pod delete_pod
    pod_updated-notify old cur c = elim (Bool-cases (pod_filter old)) [
      | inl p ↦ elim (Bool-cases (pod_filter cur)) [
        | inl q ↦ rw (p, q) (law.on_update _ _ _ c p q)
        | inr q ↦ rw (p, q) (law.on_update_ends _ _ _ c p q)
      ]
      | inr p ↦ elim (Bool-cases (pod_filter cur)) [
        | inl q ↦ rw (p, q) (law.on_update_begins _ _ _ c p q)
        | inr q ↦ rw (p, q) (law.on_update_filtered _ _ _ c p q)
      ]
    ]

    notify-handle : (e : Event) (c : Controller) → notify e c ≡ handle k e c
    unfolding handle new enqueue_object update_caffe2_job delete_pod
    notify-handle (job_cached job) c = refl
    notify-handle (job_dropped job) c = refl
    notify-handle (job_added held job) c = law.on_add _ _ _ refl
    notify-handle (job_updated old cur) c = law.on_update _ _ _ _ refl refl
    notify-handle (job_deleted job) c = law.on_delete _ _ _ refl
    notify-handle (pod_added pod) c = elim (Bool-cases (pod_filter pod)) [
      | inl p ↦ rw p (law.on_add _ _ c p)
      | inr p ↦ rw p (law.on_add_filtered _ _ c p)
    ]
    notify-handle (pod_updated old cur) c = pod_updated-notify old cur c
    notify-handle (pod_deleted pod) c = elim (Bool-cases (pod_filter pod)) [
      | inl p ↦ rw p (law.on_delete _ _ c p)
      | inr p ↦ rw p (law.on_delete_filtered _ _ c p)
    ]
    notify-handle worker_round c = refl

    notify_all-run_events : (es : List Event) (c : Controller) → notify_all es c ≡ run_events k es c
    unfolding run_events
    notify_all-run_events [] c = refl
    notify_all-run_events (e ∷ es) c =
        rw (notify-handle e c) (>>=_congr (handle k e c) _ _ (notify_all-run_events es))

    -- With the handlers that `New` registers, delivered as their filters ask: any sequence of
    -- notices and worker rounds does what `run_events` does on it, and the tombstone of a deleted
    -- object changes nothing.
    pub new-run_events :
        (es : List Event) (key : String) (c : Controller)
        → (notify_all es c ≡ run_events k es c)
          × (deliver (new k).job_handler (vanished (tombstone key)) c ≡ returns c)
          × (deliver (new k).pod_handler (vanished (tombstone key)) c ≡ returns c)
    unfolding new
    new-run_events es key c = (
      notify_all-run_events es c,
      law.on_delete_filtered _ _ c refl,
      law.on_delete_filtered _ _ c refl,
    )
