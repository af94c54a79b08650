-- ===== src/Examples/Copies.antt =====
-- The theorems on deep copies, applied to the job of the examples as a heap holds it.
use caffe2_operator.Prelude.{
  ◌≡◌, ℕ, suc, arith, get_elem?, ◌≤◌, ◌++◌, List, refl, none, some, [], ◌∷◌,
}
use caffe2_operator.Api.Memory.{
  Address, Cell, Layout, Heap, StoredJob, int32, backend, chief, termination_policy, replica_spec,
  job, jobs, job_list, template, as_job,
}
use caffe2_operator.Api.Memory.Copies.{New, Copied, Agree, PointsTo, Any, flat}
use caffe2_operator.Prelude.Int.{pos}
use caffe2_operator.Go.{Runs}
use caffe2_operator.Kube.{Time, ObjectMeta, PodTemplateSpec}
use caffe2_operator.Api.DeepCopy.{
  Foreign, deep_copy_job, deep_copy_into_job, deep_copy_into_job_spec, deep_copy_into_job_status,
  deep_copy_into_replica_spec, deep_copy_into_termination_policy,
}
use caffe2_operator.Api.DeepCopy.Reads.{TypedJob, TypedJobList, Promises, Same, JobReads}
use caffe2_operator.Api.DeepCopy.Flat.{Same-Moves, flat-Same}
use caffe2_operator.Api.DeepCopy.Isolated.{deep_copy_job-Copied, deep_copy_job_isolates}
use caffe2_operator.Examples.{
  job as job_value, job_meta, template as template_value, replica, backend as backend_value,
}

-- Kubernetes types that a heap holds as they are.
abbrev layout : Layout
layout = record {
  Meta = ObjectMeta;
  Template = PodTemplateSpec;
  Moment = Time;
  ListMeta = Unit;
  Other = Unit;
}

abbrev foreign : Foreign layout
foreign = record { copy_meta = flat; copy_template = flat; copy_moment = flat }

abbrev promises : Promises foreign
promises = record {
  MetaReads = Same;
  meta_moves = Same-Moves;
  meta_copies = flat-Same;
  TemplateReads = Same;
  template_moves = Same-Moves;
  template_copies = flat-Same;
  MomentReads = Same;
  moment_moves = Same-Moves;
  moment_copies = flat-Same;
}

abbrev stored : StoredJob layout
stored = record {
  type_meta = record { kind = "Caffe2Job"; api_version = "v1alpha1" };
  meta = job_meta;
  spec = record {
    runtime_id = "1";
    backend = some 1;
    replica_specs = some 2;
    termination_policy = some 5;
  };
  status = record {
    conditions = none;
    replica_statuses = none;
    start_time = none;
    completion_time = none;
    last_reconcile_time = none;
  };
}

abbrev heap : Heap layout
heap =
    job stored
    ∷ backend backend_value
    ∷ replica_spec (record { replicas = some 3; template = some 4 })
    ∷ int32 (pos 2)
    ∷ template template_value
    ∷ termination_policy (record { chief = some 6 })
    ∷ chief (record { replica_name = "WORKER"; replica_index = pos 0 })
    ∷ jobs (stored ∷ stored ∷ [])
    ∷ job_list (record { type_meta = stored.type_meta; list_meta = tt; items = some 7 })
    ∷ []

abbrev typed : TypedJob
typed = record { type_meta = stored.type_meta; job = job_value }

abbrev typed_list : TypedJobList layout
typed_list = record { type_meta = stored.type_meta; list_meta = tt; items = typed ∷ typed ∷ [] }

stored-JobReads : JobReads foreign promises Any heap stored typed
unfolding job_value replica
stored-JobReads = record {
  type_meta = refl;
  meta = refl;
  spec = record {
    runtime_id = refl;
    backend = (tt, backend backend_value, refl, backend_value, refl, refl);
    replica_specs = (
      tt,
      _,
      refl,
      _,
      refl,
      record { replicas = (tt, _, refl, _, refl, refl); template = (tt, _, refl, _, refl, refl) },
    );
    termination_policy = (tt, _, refl, _, refl, record { chief = (tt, _, refl, _, refl, refl) });
  };
  status = record {
    conditions = refl;
    replica_statuses = tt;
    start_time = tt;
    completion_time = tt;
    last_reconcile_time = tt;
  };
}

heap-PointsTo : PointsTo as_job (JobReads foreign promises) Any heap (some 0) (some typed)
heap-PointsTo = (tt, job stored, refl, stored, refl, stored-JobReads)

deep_copy_job-Copied_example :
    Runs
      (Copied (PointsTo as_job (JobReads foreign promises)) heap (some typed))
      (deep_copy_job foreign (some 0) heap)
deep_copy_job-Copied_example =
    deep_copy_job-Copied foreign promises heap (some 0) (some typed) heap-PointsTo

-- Six cells are added, the job's own last.
abbrev copied : List (Cell layout)
copied =
    backend backend_value
    ∷ int32 (pos 2)
    ∷ template template_value
    ∷ replica_spec (record { replicas = some 10; template = some 11 })
    ∷ chief (record { replica_name = "WORKER"; replica_index = pos 0 })
    ∷ termination_policy (record { chief = some 13 })
    ∷ job (record stored {
      spec = record stored.spec {
        backend = some 9;
        replica_specs = some 12;
        termination_policy = some 14;
      };
    })
    ∷ []

-- The original is overwritten with a number.
abbrev spoilt : Heap layout
spoilt = int32 (pos 9) ∷ drop_first (heap ++ copied)
  where
    drop_first : Heap layout → Heap layout
    drop_first [] = []
    drop_first (c ∷ cs) = cs

spoilt-Agree : Agree (New heap) (heap ++ copied) spoilt
spoilt-Agree a c u e = new_only a u e
  where
    new_only :
        (a : Address) → 9 ≤ a → get_elem? (heap ++ copied) a ≡ some c → get_elem? spoilt a ≡ some c
    new_only ℕ.zero u e = absurd (omega arith)
    new_only (suc a) u e = e

deep_copy_job_isolates_example :
    PointsTo as_job (JobReads foreign promises) Any spoilt (some 15) (some typed)
    × PointsTo as_job (JobReads foreign promises) Any (heap ++ copied) (some 0) (some typed)
unfolding deep_copy_job deep_copy_into_job deep_copy_into_job_spec deep_copy_into_job_status
    deep_copy_into_replica_spec deep_copy_into_termination_policy
deep_copy_job_isolates_example =
    deep_copy_job_isolates foreign promises heap (some 0) (some typed) (some 15) (heap ++ copied)
      spoilt (heap ++ copied) heap-PointsTo refl spoilt-Agree (λ a c u e. e)
