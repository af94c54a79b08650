-- ===== src/Controller/Sync/Worker.antt =====
-- A worker settles each key that it takes from the queue, and does not panic on a cache of jobs whose
-- pointers are there.
use caffe2_operator.Prelude.{
  ℕ, zero, suc, String, ◌≡◌, refl, inl, inr, Bool, true, false, Option, none, some, ◌∷◌,
  Option-cases,
}
use caffe2_operator.Go.{Error, returns, Runs, Runs-value}
use caffe2_operator.Controller.Cluster.{QueueOp, took, added, forgot, done, Cluster}
use caffe2_operator.Controller.Sync.{
  Controller, sync_caffe2_job, queued, requeue, process_next_work_item, run_worker,
}
use caffe2_operator.Controller.Sync.Total.{AllReady, Synced, sync_caffe2_job-Runs}

module _ (k : Cluster) where
  -- What one round of the worker leaves for a key: the key is taken; it is forgotten if its sync
  -- had no error and added again if it had; and then it is done.
  pub record Settled (key : String) (c : Controller) (x : Bool × Controller) : Type 0 where
    pub goes_on : x.0 ≡ true
    pub forget : Bool
    pub sync_error : Option Error
    pub after : Controller
    pub of_sync : sync_caffe2_job k key (queued (took key) c) ≡ returns (forget, sync_error, after)
    pub op : QueueOp
    pub op_of_error : op ≡ (elim sync_error [ none ↦ forgot key | some e ↦ added key ])
    pub queue : x.1.queue ≡ done key ∷ op ∷ took key ∷ c.queue
    pub all_ready : AllReady x.1.jobs

  requeue-Settled :
      (key : String) (c : Controller) (x : Bool × Option Error × Controller)
      → sync_caffe2_job k key (queued (took key) c) ≡ returns x
      → Synced (queued (took key) c) x
      → Settled key c (true, requeue key x)
  unfolding requeue
  requeue-Settled key c (b, some e, c') r s = record {
    goes_on = refl;
    forget = b;
    sync_error = some e;
    after = c';
    of_sync = r;
    op = added key;
    op_of_error = refl;
    queue = rw s.same_queue refl;
    all_ready = s.all_ready;
  }
  requeue-Settled key c (b, none, c') r s =
      rw (s.forget_iff.1 refl, requeue)
        (record {
          goes_on = refl;
          forget = b;
          sync_error = none;
          after = c';
          of_sync = r;
          op = forgot key;
          op_of_error = refl;
          queue = rw s.same_queue refl;
          all_ready = s.all_ready;
        })

  -- On a cache where every job has its replica specs, its template and its backend, and a number of
  -- replicas that is not negative, and with a key at hand, `processNextWorkItem` returns true. The
  -- queue has then seen exactly: the key taken, the key forgotten where the sync had no error or added
  -- again where it had one, and the key done; and the cache is still as it was assumed to be.
  pub process_next_work_item-Settled :
      (key : String) (c : Controller)
      → AllReady c.jobs
      → k.next_item c.queue ≡ some key
      → Runs (Settled key c) (process_next_work_item k c)
  unfolding process_next_work_item
  process_next_work_item-Settled key c all h =
      let (x, e, s) =
        Runs-value (Synced (queued (took key) c)) (sync_caffe2_job k key (queued (took key) c))
          (sync_caffe2_job-Runs k key (queued (took key) c) all) in
      rw (h, process_next_work_item) (rw e (requeue-Settled key c x e s))

  run_worker-on :
      (key : String) (c : Controller) (fuel : ℕ) (x : Bool × Controller)
      → process_next_work_item k c ≡ returns x
      → Settled key c x
      → Runs (λ c'. AllReady c'.jobs) (run_worker k fuel x.1)
      → Runs (λ c'. AllReady c'.jobs) (run_worker k (suc fuel) c)
  unfolding run_worker
  run_worker-on key c fuel (true, c') e s h = rw (e, run_worker) h
  run_worker-on key c fuel (false, c') e s h = absurd (cc (s.goes_on))

  -- On a cache where every job has its replica specs, its template and its backend, and a number of
  -- replicas that is not negative, a worker never panics, however many items it takes and whatever the
  -- cluster answers, and the cache stays such.
  pub run_worker-Runs :
      (fuel : ℕ) (c : Controller)
      → AllReady c.jobs
      → Runs (λ c'. AllReady c'.jobs) (run_worker k fuel c)
  unfolding run_worker
  run_worker-Runs zero c all = all
  run_worker-Runs (suc fuel) c all = elim (Option-cases (k.next_item c.queue)) [
    | inl stop ↦ unfold process_next_work_item in rw (stop, run_worker) all
    | inr (key, h) ↦
        let (x, e, s) =
          Runs-value (Settled key c) (process_next_work_item k c)
            (process_next_work_item-Settled key c all h) in
        run_worker-on key c fuel x e s (run_worker-Runs fuel x.1 s.all_ready)
  ]
