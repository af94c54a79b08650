-- ===== src/Controller/Events/Laws.antt =====
-- What the event handlers leave in the cache and in the queue.
use caffe2_operator.Go.{returns, ok, Runs, Runs-deref, Runs-value}
use caffe2_operator.Controller.Events.{
  write_object, object_at, default_time, enqueue_key, enqueue_controller, add_caffe2_job,
}
use caffe2_operator.Controller.Cluster.{World, added, Cluster}
use caffe2_operator.Prelude.{
  ◌∙◌, sym, Bool, false, String, ◌≡◌, refl, ◌⊎◌, inl, inr, true, Option, none, some, ◌∷◌,
  Bool-cases, ℕ,
}
use caffe2_operator.Prelude.Dict.{insert, lookup}
use caffe2_operator.Api.Defaults.{
  default_policy, set_defaults, set_object_defaults, default_template, default_replicas,
  default_backend,
}
use caffe2_operator.Api.Types.{
  TerminationPolicySpec, Caffe2BackendSpec, Caffe2ReplicaSpec, Caffe2JobSpec, Caffe2Job,
  caffe2_job_created,
}
use caffe2_operator.Prelude.Int.{ℤ, pos}
use caffe2_operator.Prelude.Text.{◌<>◌, is_empty}
use caffe2_operator.Kube.{PodTemplateSpec}
use caffe2_operator.Controller.Status.{update_conditions, caffe2_job_created_reason}
use caffe2_operator.Controller.Status.Steps.{HasCondition, is_set}
use caffe2_operator.Controller.Pods.Ready.{Ready}
use caffe2_operator.Controller.Sync.{Controller, store_key}

-- What a user has to give: replica specs with a template, and no negative number of replicas.
pub record Submittable (s : Caffe2JobSpec) : Type 0 where
  pub spec : Caffe2ReplicaSpec
  pub template : PodTemplateSpec
  pub count : (spec.replicas ≡ none) ⊎ ((n : ℕ) × (spec.replicas ≡ some (pos n)))
  pub has_spec : s.replica_specs ≡ some spec
  pub has_template : spec.template ≡ some template

template_stays :
    (t : PodTemplateSpec) → (t' : PodTemplateSpec) × (default_template (some t) ≡ some t')
unfolding default_template
template_stays t = elim (Bool-cases (is_empty t.spec.restart_policy)) [
  | inl e ↦ (record t { spec = record t.spec { restart_policy = "Never" } }, rw e refl)
  | inr e ↦ (t, rw e refl)
]

replicas_stay :
    (o : Option ℤ)
    → (o ≡ none) ⊎ ((n : ℕ) × (o ≡ some (pos n)))
    → (n : ℕ) × (default_replicas o ≡ pos n)
unfolding default_replicas
replicas_stay o (inl e) = (1, rw e refl)
replicas_stay o (inr (n, e)) = (n, rw e refl)

-- What `addCaffe2Job` may rely on of the object that it is given: it can be submitted, or the defaults
-- were set before.
pub Ready-Submittable : (s : Caffe2JobSpec) → Ready s → Submittable s
Ready-Submittable s r = record {
  spec = r.spec;
  template = r.template;
  count = inr (r.replicas, r.has_replicas);
  has_spec = r.has_spec;
  has_template = r.has_template;
}

-- The spec has all that the controller dereferences, and keeps what the user chose.
pub record Defaulted (given s : Caffe2JobSpec) : Type 0 where
  pub ready : Ready s
  pub runtime_id : is_empty given.runtime_id ≡ false → s.runtime_id ≡ given.runtime_id
  pub backend : (b : Caffe2BackendSpec) → given.backend ≡ some b → s.backend ≡ some b
  pub replicas :
      (spec : Caffe2ReplicaSpec) (n : ℤ)
      → given.replica_specs ≡ some spec
      → spec.replicas ≡ some n
      → ready.spec.replicas ≡ some n
  pub policy :
      (p : TerminationPolicySpec)
      → given.termination_policy ≡ some p
      → s.termination_policy ≡ some p
  pub has_policy : ¬ (s.termination_policy ≡ none)

set_defaults-Defaulted :
    (now : ℤ) (s : Caffe2JobSpec) → Submittable s → Runs (Defaulted s) (set_defaults now s)
unfolding set_defaults default_backend default_policy default_replicas
set_defaults-Defaulted now s u =
    let (t, et) = template_stays u.template in
    let (n, en) = replicas_stay u.spec.replicas u.count in
    Runs-deref (Defaulted s) s.replica_specs u.spec _ u.has_spec (record {
      ready = record {
        spec = record {
          replicas = some (default_replicas u.spec.replicas);
          template = default_template u.spec.template;
        };
        replicas = n;
        template = t;
        backend = default_backend (default_replicas u.spec.replicas) s.backend;
        has_spec = refl;
        has_replicas = rw en refl;
        has_template = rw u.has_template et;
        has_backend = refl;
      };
      runtime_id = λ e. rw e refl;
      backend = λ b e. rw (e, default_backend) refl;
      replicas = λ given m e h. kept given m (some_eq u.spec given (sym u.has_spec ∙ e)) h;
      policy = λ p e. rw (e, default_policy) refl;
      has_policy = λ e. cc;
    })
  where
    some_eq : (a b : Caffe2ReplicaSpec) → some a ≡ some b → a ≡ b
    some_eq a b e = cc

    kept :
        (given : Caffe2ReplicaSpec) (m : ℤ)
        → u.spec ≡ given
        → given.replicas ≡ some m
        → some (default_replicas u.spec.replicas) ≡ some m
    kept given m same h = rw (same, h, default_replicas) refl

module _ (k : Cluster) (held : Bool) (obj : Caffe2Job) (c : Controller) where
  abbrev pub obj_key : String
  obj_key = store_key obj.meta.namespace obj.meta.name

  -- What `addCaffe2Job` leaves, where the cache holds the object: the object in the cache with its
  -- defaults and the condition Created, its key added to the queue, and the rest of the cache.
  pub record Added (job : Caffe2Job) (job_key : String) (c' : Controller) : Type 0 where
    pub cached : Caffe2Job
    pub in_cache : c'.jobs ≡ insert obj_key cached c.jobs
    pub same_meta : cached.meta ≡ job.meta
    pub defaulted : Defaulted job.spec cached.spec
    pub created : HasCondition caffe2_job_created caffe2_job_created_reason cached
    pub queue : c'.queue ≡ added job_key ∷ c.queue

  -- What it writes to the object.
  pub record Written (job job' : Caffe2Job) : Type 0 where
    pub same_meta : job'.meta ≡ job.meta
    pub defaulted : Defaulted job.spec job'.spec
    pub created : HasCondition caffe2_job_created caffe2_job_created_reason job'

  pub add_caffe2_job-Written :
      (job : Caffe2Job)
      → object_at held obj c ≡ job
      → Submittable job.spec
      → (job' : Caffe2Job) × (w : World) × Written job job'
        × (add_caffe2_job k held obj c
            ≡ returns (enqueue_controller k job.meta (write_object held obj (job', w) c)))
  unfolding add_caffe2_job set_object_defaults update_conditions
  add_caffe2_job-Written job at_ u =
      let now = (default_time k job c.world).0 in
      let (spec, e, d) =
        Runs-value (Defaulted job.spec) (set_defaults now job.spec)
          (set_defaults-Defaulted now job.spec u) in
      let st =
        (update_conditions k caffe2_job_created caffe2_job_created_reason
          ("Caffe2Job " <> job.meta.name <> " is created.")
          (record job { spec = spec }, (default_time k job c.world).1)).1 in
      (
        st.0,
        st.1,
        record {
          same_meta = refl;
          defaulted = d;
          created =
              is_set k caffe2_job_created caffe2_job_created_reason
                ("Caffe2Job " <> job.meta.name <> " is created.")
                (record job { spec = spec }, (default_time k job c.world).1);
        },
        rw (at_, e) refl,
      )

module _ (k : Cluster) (obj : Caffe2Job) (c : Controller) where
  -- Where the cache holds an object with a key, with replica specs and a template, and without a
  -- negative number of replicas, `addCaffe2Job` on the pointer to it returns. The cache then holds it
  -- with what the controller dereferences, with the runtime id, backend, number of replicas and
  -- termination policy that it had where it had one, with a termination policy, and with a true condition
  -- Created; the rest of the cache is as it was, and its key has been added to the queue.
  pub add_caffe2_job-Added :
      (job : Caffe2Job) (job_key : String)
      → lookup (store_key obj.meta.namespace obj.meta.name) c.jobs ≡ some job
      → Submittable job.spec
      → k.key_func job.meta ≡ ok job_key
      → Runs (Added k true obj c job job_key) (add_caffe2_job k true obj c)
  unfolding enqueue_controller enqueue_key object_at write_object
  add_caffe2_job-Added job job_key held u key =
      let (job', w, h, e) = add_caffe2_job-Written k true obj c job (rw (held, object_at) refl) u in
      rw e (
        rw (key, enqueue_controller)
          (rw (held, write_object)
            (record {
              cached = job';
              in_cache = refl;
              same_meta = h.same_meta;
              defaulted = h.defaulted;
              created = h.created;
              queue = refl;
            })))
