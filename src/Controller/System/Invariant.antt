-- ===== src/Controller/System/Invariant.antt =====
-- What every order of events and rounds preserves.
use caffe2_operator.Api.Types.{Caffe2Job}
use caffe2_operator.Prelude.{
  true, String, ◌≡◌, ◌⊎◌, inl, inr, Option, none, some, List, [], ◌∷◌, Option-cases,
}
use caffe2_operator.Prelude.Dict.{insert}
use caffe2_operator.Controller.Events.{add_caffe2_job}
use caffe2_operator.Go.{Outcome, ◌>>=◌, Error, Runs, Runs-then, Runs-map}
use caffe2_operator.Controller.Cluster.{QueueOp, took, added, forgot, done, Cluster}
use caffe2_operator.Controller.Sync.{Controller, process_next_work_item}
use caffe2_operator.Controller.Pods.Ready.{Ready}
use caffe2_operator.Controller.Events.Laws.{Submittable}
use caffe2_operator.Controller.Sync.Total.{AllReady}
use caffe2_operator.Controller.Sync.Worker.{Settled, process_next_work_item-Settled}
use caffe2_operator.Controller.System.Handlers.{
  cached_and_added-Informed, Informed, IsInformed, Admissible, handle-Informed,
}
use caffe2_operator.Controller.System.{
  Event, job_key, job_cached, job_dropped, job_added, job_updated, job_deleted, pod_added,
  pod_updated, pod_deleted, worker_round, handle, run_events,
}

-- The work queue has seen, the newest first: keys added; and keys taken, then forgotten or added
-- again, then done.
pub data Orderly : List QueueOp → Type 0 where
  untouched : Orderly []
  adds : (key : String) (ops : List QueueOp) → Orderly ops → Orderly (added key ∷ ops)
  forgets :
      (key : String) (ops : List QueueOp)
      → Orderly ops
      → Orderly (done key ∷ forgot key ∷ took key ∷ ops)
  retries :
      (key : String) (ops : List QueueOp)
      → Orderly ops
      → Orderly (done key ∷ added key ∷ took key ∷ ops)

pub record Sound (c : Controller) : Type 0 where
  pub all_ready : AllReady c.jobs
  pub orderly : Orderly c.queue

Orderly-added :
    (ops new : List QueueOp)
    → (new ≡ ops) ⊎ ((key : String) × (new ≡ added key ∷ ops))
    → Orderly ops
    → Orderly new
Orderly-added ops new (inl e) h = rw e h
Orderly-added ops new (inr (key, e)) h = rw e (Orderly.adds key ops h)

module _ (k : Cluster) where
  -- `addCaffe2Job` on the job that has just come into the cache is the next step.
  abbrev pub Handled : Caffe2Job → List Event → Type 0
  Handled job (job_added true obj ∷ es) = (obj ≡ job) × Submittable job.spec
  Handled job _ = ⊥

  -- A job that comes into the cache has what the controller dereferences, or gets it at once.
  abbrev pub Coming : Event → List Event → Type 0
  Coming (job_cached job) es = Ready job.spec ⊎ Handled job es
  Coming e es = Admissible k e

  abbrev pub AllAdmissible : List Event → Type 0
  AllAdmissible [] = Unit
  AllAdmissible (e ∷ es) = Coming e es × AllAdmissible es

  settled-Orderly :
      (key : String) (ops : List QueueOp) (o : Option Error) (op : QueueOp)
      → op ≡ (elim o [ none ↦ forgot key | some e ↦ added key ])
      → Orderly ops
      → Orderly (done key ∷ op ∷ took key ∷ ops)
  settled-Orderly key ops none op e h = rw e (Orderly.forgets key ops h)
  settled-Orderly key ops (some x) op e h = rw e (Orderly.retries key ops h)

  worker_round-Sound :
      (c : Controller) → Sound c → Runs (λ r. Sound r.1) (process_next_work_item k c)
  worker_round-Sound c s = elim (Option-cases (k.next_item c.queue)) [
    | inl stop ↦ unfold process_next_work_item in rw (stop, Runs) s
    | inr (key, h) ↦
        Runs-map (Settled k key c) (λ r. Sound r.1) (process_next_work_item k c)
          (λ r t. record {
            all_ready = t.all_ready;
            orderly =
                rw t.queue (settled-Orderly key c.queue t.sync_error t.op t.op_of_error s.orderly);
          })
          (process_next_work_item-Settled k key c s.all_ready h)
  ]

  informed-Sound :
      (e : Event) (c : Controller)
      → IsInformed e
      → Admissible k e
      → Sound c
      → Runs Sound (handle k e c)
  informed-Sound e c i a s =
      Runs-map (Informed c.queue) Sound (handle k e c)
        (λ c' h. record {
          all_ready = h.all_ready;
          orderly = Orderly-added c.queue c'.queue h.queue s.orderly;
        })
        (handle-Informed k e c i a s.all_ready)

  handle-Sound : (e : Event) (c : Controller) → Admissible k e → Sound c → Runs Sound (handle k e c)
  handle-Sound (job_cached job) c a s = informed-Sound (job_cached job) c tt a s
  handle-Sound (job_dropped job) c a s = informed-Sound (job_dropped job) c tt a s
  handle-Sound (job_added held job) c a s = informed-Sound (job_added held job) c tt a s
  handle-Sound (job_updated old cur) c a s = informed-Sound (job_updated old cur) c tt a s
  handle-Sound (job_deleted job) c a s = informed-Sound (job_deleted job) c tt a s
  handle-Sound (pod_added pod) c a s = informed-Sound (pod_added pod) c tt a s
  handle-Sound (pod_updated old cur) c a s = informed-Sound (pod_updated old cur) c tt a s
  handle-Sound (pod_deleted pod) c a s = informed-Sound (pod_deleted pod) c tt a s
  handle-Sound worker_round c a s =
      unfold handle in
      Runs-then (λ r. Sound r.1) Sound (process_next_work_item k c) _ (worker_round-Sound c s)
        (λ r h. h)

  -- The two steps that put a job into the cache and set its defaults.
  cached_and_added-Sound :
      (job : Caffe2Job) (c : Controller)
      → Submittable job.spec
      → Sound c
      → Runs Sound (add_caffe2_job k true job (record c { jobs = insert (job_key job) job c.jobs }))
  cached_and_added-Sound job c u s =
      Runs-map (Informed c.queue) Sound _
        (λ c' h. record {
          all_ready = h.all_ready;
          orderly = Orderly-added c.queue c'.queue h.queue s.orderly;
        })
        (cached_and_added-Informed k job c u s.all_ready)

  cached_then-Sound :
      (job : Caffe2Job) (c : Controller) (f : Controller → Outcome Controller)
      → Submittable job.spec
      → Sound c
      → ((c' : Controller) → Sound c' → Runs Sound (f c'))
      → Runs Sound (handle k (job_cached job) c >>= λ c'. handle k (job_added true job) c' >>= f)
  cached_then-Sound job c f u s next =
      unfold handle in
      Runs-then Sound Sound
        (add_caffe2_job k true job (record c { jobs = insert (job_key job) job c.jobs })) f
        (cached_and_added-Sound job c u s) next

  -- Whatever the cluster answers, and in whatever order the informer writes to its cache, the handlers
  -- are notified and workers take keys: on a sound controller nothing panics, if each job that comes
  -- into the cache has what the controller dereferences, or has replica specs with a template and no
  -- negative number of replicas and `addCaffe2Job` on it is the next step; and each job that
  -- `addCaffe2Job` is given is of the latter kind. The controller stays sound: every job of the cache
  -- has what the controller dereferences, and every key that was taken from the queue was then forgotten
  -- or added again, and then done.
  pub run_events-Sound :
      (es : List Event) (c : Controller)
      → AllAdmissible es
      → Sound c
      → Runs Sound (run_events k es c)
  unfolding run_events
  run_events-Sound [] c a s = s
  run_events-Sound (job_cached job ∷ es) c (inl r, rest) s =
      Runs-then Sound Sound (handle k (job_cached job) c) _ (handle-Sound (job_cached job) c r s)
        (λ c' s'. run_events-Sound es c' rest s')
  run_events-Sound (job_cached job ∷ job_added true obj ∷ es) c (inr (e, u), (a, rest)) s =
      rw e (cached_then-Sound job c _ u s (λ c' s'. run_events-Sound es c' rest s'))
  run_events-Sound (job_cached job ∷ _) c (inr h, rest) s = absurd h
  run_events-Sound (e ∷ es) c (a, rest) s =
      Runs-then Sound Sound (handle k e c) _ (handle-Sound e c a s)
        (λ c' s'. run_events-Sound es c' rest s')
