-- ===== src/Controller/Status.antt =====
-- pkg/controller/status.go, with `updateCaffe2JobConditions` of controller.go.
pub mod Steps
pub mod Untouched
pub mod Laws
pub mod Times
use caffe2_operator.Prelude.{String, Bool, Option, none, some, if◌then◌else◌}
use caffe2_operator.Prelude.Int.{ℤ, pos, int_eq, int_lt, ◌-ℤ◌, inc32}
use caffe2_operator.Prelude.Text.{◌<>◌}
use caffe2_operator.Go.{Error, Outcome, returns, panics, ◌>>=◌, deref}
use caffe2_operator.Kube.{PodPhase, Pod}
use caffe2_operator.Api.Types.{
  Caffe2ReplicaStatus, Caffe2Job, caffe2_job_running, caffe2_job_succeeded, caffe2_job_failed,
}
use caffe2_operator.Controller.Conditions.{new_condition, set_condition}
use caffe2_operator.Controller.Cluster.{World, Cluster, now}

abbrev pub caffe2_job_created_reason : String
caffe2_job_created_reason = "Caffe2JobCreated"

abbrev pub caffe2_job_succeeded_reason : String
caffe2_job_succeeded_reason = "Caffe2JobSucceeded"

abbrev pub caffe2_job_running_reason : String
caffe2_job_running_reason = "Caffe2JobRunning"

abbrev pub caffe2_job_failed_reason : String
caffe2_job_failed_reason = "Caffe2JobFailed"

-- `initializeCaffe2ReplicaStatuses`
unfoldable pub initialize_replica_statuses : Caffe2Job → Caffe2Job
initialize_replica_statuses job = record job {
  status = record job.status {
    replica_statuses = some (record { active = pos 0; succeeded = pos 0; failed = pos 0 });
  };
}

abbrev pub with_statuses : Caffe2Job → Caffe2ReplicaStatus → Caffe2Job
with_statuses job r = record job { status = record job.status { replica_statuses = some r } }

-- One count for the phase of a pod; other phases count nowhere.
count_phase : PodPhase → Caffe2ReplicaStatus → Caffe2ReplicaStatus
count_phase PodPhase.running r = record r { active = inc32 r.active }
count_phase PodPhase.pending r = record r { active = inc32 r.active }
count_phase PodPhase.succeeded r = record r { succeeded = inc32 r.succeeded }
count_phase PodPhase.failed r = record r { failed = inc32 r.failed }
count_phase PodPhase.unknown r = r
count_phase PodPhase.unset r = r

-- The field is dereferenced only in a case of the `switch` that counts.
pub counts : PodPhase → Bool
counts PodPhase.unknown = Bool.false
counts PodPhase.unset = Bool.false
counts _ = Bool.true

-- The `switch` of `updateCaffe2JobReplicaStatuses`.
unfoldable pub update_phase : PodPhase → Caffe2Job → Outcome Caffe2Job
unfolding count_phase counts
update_phase phase job = elim (counts phase) [
  | Bool.false ↦ returns job
  | Bool.true ↦
      deref job.status.replica_statuses >>= λ r. returns (with_statuses job (count_phase phase r))
]

-- `updateCaffe2JobReplicaStatuses`
unfoldable pub update_replica_statuses : Caffe2Job → Pod → Outcome Caffe2Job
unfolding update_phase
update_replica_statuses job pod = update_phase pod.phase job

-- `increaseCaffe2JobReplicaStatusesActive`
unfoldable pub increase_active : Caffe2Job → Outcome Caffe2Job
increase_active job = deref job.status.replica_statuses >>= λ r.
    returns (with_statuses job (record r { active = inc32 r.active }))

-- A job in memory, and the world.
abbrev pub Stage : Type 0
Stage = Caffe2Job × World

-- `if err := …; err != nil { return err }` between two steps.
abbrev pub unless_error :
    Option Error → Stage → (Stage → Option Error × Stage) → Option Error × Stage
unless_error (some e) st g = (some e, st)
unless_error none st g = g st

infixl 5 ◌>=>◌
abbrev pub ◌>=>◌ :
    (Stage → Option Error × Stage) → (Stage → Option Error × Stage) → Stage → Option Error × Stage
◌>=>◌ f g x = let (e, y) = f x in unless_error e y g

module _ (k : Cluster) where
  -- `updateCaffe2JobConditions`, which returns nil.
  unfoldable pub update_conditions : String → String → String → Stage → Option Error × Stage
  update_conditions type reason message (job, w) =
      let (updated, w') = now k w in
      let (transitioned, w'') = now k w' in
      let condition = new_condition type reason message updated transitioned in
      (none, (record job { status = set_condition job.status condition }, w''))

  unfoldable pub set_start_time : Bool → Stage → Option Error × Stage
  set_start_time Bool.false st = (none, st)
  set_start_time Bool.true (job, w) =
      let (t, w') = now k w in
      (none, (record job { status = record job.status { start_time = some t } }, w'))

  unfoldable pub set_completion_time : Stage → Option Error × Stage
  set_completion_time (job, w) =
      let (t, w') = now k w in
      (none, (record job { status = record job.status { completion_time = some t } }, w'))

  unfoldable pub leave_running : Bool → String → Stage → Option Error × Stage
  unfolding update_conditions
  leave_running Bool.false name st = (none, st)
  leave_running Bool.true name st =
      update_conditions caffe2_job_running caffe2_job_running_reason
        ("Caffe2Job " <> name <> " is running.") st

  unfoldable pub leave_succeeded : Bool → String → Stage → Option Error × Stage
  unfolding update_conditions set_completion_time
  leave_succeeded Bool.false name st = (none, st)
  leave_succeeded Bool.true name st =
      (set_completion_time
          >=> update_conditions caffe2_job_succeeded caffe2_job_succeeded_reason
              ("Caffe2Job " <> name <> " is successfully completed."))
        st

  unfoldable pub leave_failed : Bool → String → Stage → Option Error × Stage
  unfolding update_conditions
  leave_failed Bool.false name st = (none, st)
  leave_failed Bool.true name st =
      update_conditions caffe2_job_failed caffe2_job_failed_reason
        ("Caffe2Job " <> name <> " is failed.") st

  -- `updateStatus` after the counters are read.
  unfoldable pub status_steps : Caffe2ReplicaStatus → ℤ → String → Stage → Option Error × Stage
  unfolding set_start_time leave_running leave_succeeded leave_failed
  status_steps r replicas name =
      set_start_time (int_eq r.active replicas)
      >=> leave_running (int_lt (pos 0) r.active) name
      >=> leave_succeeded (int_eq (replicas -ℤ r.succeeded) (pos 0)) name
      >=> leave_failed (int_lt (pos 0) r.failed) name

  -- `updateStatus`
  unfoldable pub update_status : ℤ → Stage → Outcome (Option Error × Stage)
  update_status replicas (job, w) = deref job.status.replica_statuses >>= λ r.
      returns (status_steps r replicas job.meta.name (job, w))
