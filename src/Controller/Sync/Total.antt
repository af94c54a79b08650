-- ===== src/Controller/Sync/Total.antt =====
-- Syncing a job does not panic on a cache of jobs whose pointers are there.
use caffe2_operator.Prelude.{
  String, ◌≡◌, refl, sym, ◌∙◌, ◌↔◌, inl, inr, Bool, true, false, ◌||◌, Option, none, some, List,
  Bool-cases, Option-cases, if◌then◌else◌,
}
use caffe2_operator.Prelude.Dict.{Dict, lookup, insert, lookup-insert}
use caffe2_operator.Prelude.Text.{is_empty}
use text.Mathlib.Text.{◌==◌}
use caffe2_operator.Go.{Error, is_not_found, ok, err, returns, Runs, Result, Runs-value}
use caffe2_operator.Kube.{Pod}
use caffe2_operator.Api.Types.{Caffe2Job}
use caffe2_operator.Controller.Cluster.{World, Cluster}
use caffe2_operator.Controller.Status.{Stage}
use caffe2_operator.Controller.Pods.{reconcile_pods}
use caffe2_operator.Controller.Pods.Ready.{Ready}
use caffe2_operator.Controller.Pods.Total.{reconcile_pods-Runs}
use caffe2_operator.Controller.Sync.{
  get_pods_for_caffe2_job, update_caffe2_job_status, reconcile_claimed, reconcile_caffe2_jobs,
  store_key, lister_get, Controller, stored, reconcile_found, sync_found, sync_named,
  sync_caffe2_job,
}

-- Every job of the cache has what the controller dereferences.
abbrev pub AllReady : Dict Caffe2Job → Type 0
AllReady jobs = (key : String) (job : Caffe2Job) → lookup key jobs ≡ some job → Ready job.spec

some_eq : (a b : Caffe2Job) → some a ≡ some b → a ≡ b
some_eq a b h = cc

pub insert-AllReady :
    (key : String) (job : Caffe2Job) (jobs : Dict Caffe2Job)
    → Ready job.spec
    → AllReady jobs
    → AllReady (insert key job jobs)
insert-AllReady key job jobs r all key' job' h =
    let found : lookup key' (insert key job jobs)
        ≡ (if key == key' then some job else lookup key' jobs) =
      lookup-insert key key' job jobs in
    elim (Bool-cases (key == key')) [
      | inl same ↦ rw (some_eq job job' (sym (rw same at found) ∙ h)) at r
      | inr other ↦ all key' job' (sym (rw other at found) ∙ h)
    ]

module _ (k : Cluster) where
  Reconciled : Caffe2Job → Option Error × Stage → Type 0
  Reconciled job x = x.1.0.spec ≡ job.spec

  -- What follows `reconcilePods`.
  reconcile_claimed-on :
      (job : Caffe2Job) (pods : List Pod) (w : World) (x : Option Error × Stage)
      → reconcile_pods k job pods job.spec.replica_specs w ≡ returns x
      → Reconciled job x
      → Runs (Reconciled job) (reconcile_claimed k job (pods, none, w))
  unfolding Reconciled reconcile_claimed update_caffe2_job_status
  reconcile_claimed-on job pods w (some e', st) e h = rw (e, reconcile_claimed) h
  reconcile_claimed-on job pods w (none, st) e h = rw (e, reconcile_claimed) h

  reconcile_claimed-Runs :
      (job : Caffe2Job) (x : List Pod × Option Error × World)
      → Ready job.spec
      → Runs (Reconciled job) (reconcile_claimed k job x)
  unfolding Reconciled reconcile_claimed
  reconcile_claimed-Runs job (pods, some e, w) r = refl
  reconcile_claimed-Runs job (pods, none, w) r =
      let (x, e, h) =
        Runs-value (λ x. x.1.0.spec ≡ job.spec) (reconcile_pods k job pods job.spec.replica_specs w)
          (reconcile_pods-Runs k job pods w r) in
      reconcile_claimed-on job pods w x e h

-- What a sync that started on the cache and the queue of `c` returns: the key may be forgotten exactly
-- where the error is nil, the queue is not touched, and the jobs of the cache are still ready.
pub record Synced (c : Controller) (x : Bool × Option Error × Controller) : Type 0 where
  pub forget_iff : (x.0 ≡ true) ↔ (x.1 ≡ none)
  pub same_queue : x.2.queue ≡ c.queue
  pub all_ready : AllReady x.2.jobs

-- An error keeps the key.
failed :
    (c c' : Controller) (e : Error)
    → c'.queue ≡ c.queue
    → AllReady c'.jobs
    → Synced c (false, some e, c')
failed c c' e q all = record { forget_iff = (λ h. cc, λ h. cc); same_queue = q; all_ready = all }

module _ (k : Cluster) (ns name : String) where
  reconcile_found-on :
      (job : Caffe2Job) (c : Controller) (x : Option Error × Stage)
      → job.meta.deletion_timestamp ≡ none
      → reconcile_caffe2_jobs k job c.world ≡ returns x
      → Ready x.1.0.spec
      → AllReady c.jobs
      → Runs (Synced c) (reconcile_found k ns name job c)
  unfolding reconcile_found
  reconcile_found-on job c (some e', st) d e r all =
      rw (d, reconcile_found, e)
        (failed c (stored ns name st c) e' refl
          (insert-AllReady (store_key ns name) st.0 c.jobs r all))
  reconcile_found-on job c (none, st) d e r all =
      rw (d, reconcile_found, e)
        (record {
          forget_iff = (λ h. refl, λ h. refl);
          same_queue = refl;
          all_ready = insert-AllReady (store_key ns name) st.0 c.jobs r all;
        })

  forgotten : (c : Controller) → AllReady c.jobs → Synced c (true, none, c)
  forgotten c all = record {
    forget_iff = (λ h. refl, λ h. refl);
    same_queue = refl;
    all_ready = all;
  }

  reconcile_found-Runs :
      (job : Caffe2Job) (c : Controller)
      → Ready job.spec
      → AllReady c.jobs
      → Runs (Synced c) (reconcile_found k ns name job c)
  unfolding reconcile_found reconcile_caffe2_jobs Reconciled
  reconcile_found-Runs job c r all = elim (Option-cases job.meta.deletion_timestamp) [
    | inr (t, d) ↦ rw (d, reconcile_found) (forgotten c all)
    | inl d ↦
        let (x, e, h) =
          Runs-value (Reconciled k job) (reconcile_caffe2_jobs k job c.world)
            (reconcile_claimed-Runs k job (get_pods_for_caffe2_job k job c.world) r) in
        reconcile_found-on job c x d e (rw h r) all
  ]

  sync_found-Runs :
      (r : Result Caffe2Job) (c : Controller)
      → ((job : Caffe2Job) → r ≡ ok job → Ready job.spec)
      → AllReady c.jobs
      → Runs (Synced c) (sync_found k ns name r c)
  unfolding sync_found
  sync_found-Runs (err e) c f all = elim (Bool-cases (is_not_found e)) [
    | inl missing ↦ rw (missing, sync_found) (forgotten c all)
    | inr other ↦ rw (other, sync_found) (failed c c e refl all)
  ]
  sync_found-Runs (ok job) c f all = reconcile_found-Runs job c (f job refl) all

ok_eq : (a b : Caffe2Job) → ok a ≡ ok b → a ≡ b
ok_eq a b h = cc

lister_get-Ready :
    (jobs : Dict Caffe2Job) (ns name : String) (job : Caffe2Job)
    → AllReady jobs
    → lister_get jobs ns name ≡ ok job
    → Ready job.spec
unfolding lister_get
lister_get-Ready jobs ns name job all h = elim (Option-cases (lookup (store_key ns name) jobs)) [
  | inl e ↦ absurd (cc (rw (e, lister_get) at h))
  | inr (job', e) ↦
      rw (ok_eq job' job (rw (e, lister_get) at h)) at (all (store_key ns name) job' e)
]

module _ (k : Cluster) where
  sync_named-Runs :
      (key : String) (r : Result (String × String)) (c : Controller)
      → AllReady c.jobs
      → Runs (Synced c) (sync_named k key r c)
  unfolding sync_named
  sync_named-Runs key (err e) c all = failed c c e refl all
  sync_named-Runs key (ok (ns, name)) c all = elim (Bool-cases (is_empty ns || is_empty name)) [
    | inl empty ↦ rw (empty, sync_named) (failed c c _ refl all)
    | inr full ↦
        rw (full, sync_named)
          (sync_found-Runs k ns name (lister_get c.jobs ns name) c
            (λ job h. lister_get-Ready c.jobs ns name job all h) all)
  ]

  -- On a cache where every job has its replica specs, its template and its backend, and a number of
  -- replicas that is not negative, `syncCaffe2Job` returns, for every key and whatever the cluster
  -- answers; it tells the worker to forget the key exactly where its error is nil, it does not touch
  -- the queue, and the jobs of the cache are still as they were assumed to be.
  pub sync_caffe2_job-Runs :
      (key : String) (c : Controller) → AllReady c.jobs → Runs (Synced c) (sync_caffe2_job k key c)
  unfolding sync_caffe2_job
  sync_caffe2_job-Runs key c all = sync_named-Runs key (k.split_key key) c all
