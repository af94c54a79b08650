-- ===== src/Api/DeepCopy.antt =====
-- pkg/apis/caffe2/v1alpha1/zz_generated.deepcopy.go. `DeepCopyInto` returns what it writes into `out`;
-- a struct that the Go code allocates first and then fills is allocated here when it is full, which
-- shows in nothing but the numbers of the addresses.
pub mod Reads
pub mod Flat
pub mod Specs
pub mod Laws
pub mod Isolated
use caffe2_operator.Prelude.{ℕ, String, Option, none, some, List}
use caffe2_operator.Go.{Outcome, returns, ◌>>=◌}
use caffe2_operator.Api.Types.{Caffe2BackendSpec, ChiefSpec, Caffe2ReplicaStatus}
use caffe2_operator.Api.Memory.{
  Layout, Address, Pointer, Cell, Heap, StoredTerminationPolicy, StoredReplicaSpec, StoredJobSpec,
  StoredJobStatus, StoredCondition, StoredJob, StoredJobList, int32, backend, chief,
  termination_policy, replica_spec, replica_status, job_spec, job_status, condition, conditions,
  job, jobs, job_list, time, template, as_int32, as_backend, as_chief, as_termination_policy,
  as_replica_spec, as_replica_status, as_job_spec, as_job_status, as_condition, as_conditions,
  as_job, as_jobs, as_job_list, as_time, as_template,
}
use caffe2_operator.Api.Memory.Copies.{Copier, flat, copy_pointer, copy_each}

-- The `DeepCopyInto` of the Kubernetes types.
pub record Foreign (l : Layout) : Type 0 where
  pub copy_meta : Copier l l.Meta
  pub copy_template : Copier l l.Template
  pub copy_moment : Copier l l.Moment

-- What a `runtime.Object` of this package can be.
pub data Object : Type 0 where
  a_job a_job_list : Address → Object

module _ {l : Layout} where
  unfoldable pub deep_copy_into_backend : Copier l Caffe2BackendSpec
  deep_copy_into_backend from h = flat from h

  unfoldable pub deep_copy_backend : Copier l Pointer
  deep_copy_backend = copy_pointer as_backend backend deep_copy_into_backend

  unfoldable pub deep_copy_into_chief : Copier l ChiefSpec
  deep_copy_into_chief from h = flat from h

  unfoldable pub deep_copy_chief : Copier l Pointer
  deep_copy_chief = copy_pointer as_chief chief deep_copy_into_chief

  unfoldable pub deep_copy_into_replica_status : Copier l Caffe2ReplicaStatus
  deep_copy_into_replica_status from h = flat from h

  unfoldable pub deep_copy_replica_status : Copier l Pointer
  deep_copy_replica_status =
      copy_pointer as_replica_status replica_status deep_copy_into_replica_status

  unfoldable pub deep_copy_into_termination_policy : Copier l StoredTerminationPolicy
  deep_copy_into_termination_policy from h = copy_pointer as_chief chief flat from.chief h >>= λ a.
      returns (record from { chief = a.0 }, a.1)

  unfoldable pub deep_copy_termination_policy : Copier l Pointer
  deep_copy_termination_policy =
      copy_pointer as_termination_policy termination_policy deep_copy_into_termination_policy

  module _ (f : Foreign l) where
    unfoldable pub deep_copy_into_replica_spec : Copier l StoredReplicaSpec
    deep_copy_into_replica_spec from h = copy_pointer as_int32 int32 flat from.replicas h >>= λ a.
        copy_pointer as_template template f.copy_template from.template a.1 >>= λ b.
        returns (record from { replicas = a.0; template = b.0 }, b.1)

    unfoldable pub deep_copy_replica_spec : Copier l Pointer
    deep_copy_replica_spec = copy_pointer as_replica_spec replica_spec deep_copy_into_replica_spec

    unfoldable pub deep_copy_into_condition : Copier l (StoredCondition l)
    deep_copy_into_condition from h = f.copy_moment from.last_update_time h >>= λ a.
        f.copy_moment from.last_transition_time a.1 >>= λ b.
        returns (record from { last_update_time = a.0; last_transition_time = b.0 }, b.1)

    unfoldable pub deep_copy_condition : Copier l Pointer
    deep_copy_condition = copy_pointer as_condition condition deep_copy_into_condition

    unfoldable pub deep_copy_into_job_spec : Copier l StoredJobSpec
    deep_copy_into_job_spec from h = copy_pointer as_backend backend flat from.backend h >>= λ a.
        copy_pointer as_replica_spec replica_spec deep_copy_into_replica_spec from.replica_specs a.1
        >>= λ b.
            copy_pointer as_termination_policy termination_policy deep_copy_into_termination_policy
              from.termination_policy b.1
            >>= λ c.
                returns (
                  record from { backend = a.0; replica_specs = b.0; termination_policy = c.0 },
                  c.1,
                )

    unfoldable pub deep_copy_job_spec : Copier l Pointer
    deep_copy_job_spec = copy_pointer as_job_spec job_spec deep_copy_into_job_spec

    unfoldable pub deep_copy_into_job_status : Copier l StoredJobStatus
    deep_copy_into_job_status from h =
        copy_pointer as_conditions conditions (copy_each deep_copy_into_condition) from.conditions h
        >>= λ a.
            copy_pointer as_replica_status replica_status flat from.replica_statuses a.1 >>= λ b.
            copy_pointer as_time time f.copy_moment from.start_time b.1 >>= λ c.
            copy_pointer as_time time f.copy_moment from.completion_time c.1 >>= λ d.
            copy_pointer as_time time f.copy_moment from.last_reconcile_time d.1 >>= λ e. returns (
              record from {
                conditions = a.0;
                replica_statuses = b.0;
                start_time = c.0;
                completion_time = d.0;
                last_reconcile_time = e.0;
              },
              e.1,
            )

    unfoldable pub deep_copy_job_status : Copier l Pointer
    deep_copy_job_status = copy_pointer as_job_status job_status deep_copy_into_job_status

    unfoldable pub deep_copy_into_job : Copier l (StoredJob l)
    deep_copy_into_job from h = f.copy_meta from.meta h >>= λ a.
        deep_copy_into_job_spec from.spec a.1 >>= λ b.
        deep_copy_into_job_status from.status b.1 >>= λ c.
        returns (record from { meta = a.0; spec = b.0; status = c.0 }, c.1)

    unfoldable pub deep_copy_job : Copier l Pointer
    deep_copy_job = copy_pointer as_job job deep_copy_into_job

    unfoldable pub deep_copy_into_job_list : Copier l (StoredJobList l)
    deep_copy_into_job_list from h =
        copy_pointer as_jobs jobs (copy_each deep_copy_into_job) from.items h >>= λ a.
        returns (record from { items = a.0 }, a.1)

    unfoldable pub deep_copy_job_list : Copier l Pointer
    deep_copy_job_list = copy_pointer as_job_list job_list deep_copy_into_job_list

    -- A nil pointer becomes a nil interface.
    unfoldable pub deep_copy_object_job : Pointer → Heap l → Outcome (Option Object × Heap l)
    deep_copy_object_job from h = deep_copy_job from h >>= λ p.
        returns (elim (p.0) [ none ↦ none | some a ↦ some (a_job a) ], p.1)

    -- A nil pointer becomes a nil interface.
    unfoldable pub deep_copy_object_job_list : Pointer → Heap l → Outcome (Option Object × Heap l)
    deep_copy_object_job_list from h = deep_copy_job_list from h >>= λ p.
        returns (elim (p.0) [ none ↦ none | some a ↦ some (a_job_list a) ], p.1)
