-- ===== src/Controller/Status/Untouched.antt =====
-- What `update_status` leaves alone: the spec of the job, and the calls.
use caffe2_operator.Prelude.{String, ◌≡◌, refl, Bool, true, false}
use caffe2_operator.Prelude.Int.{ℤ}
use caffe2_operator.Api.Types.{Caffe2ReplicaStatus}
use caffe2_operator.Controller.Cluster.{Cluster}
use caffe2_operator.Controller.Status.{
  Stage, update_conditions, set_start_time, set_completion_time, leave_running, leave_succeeded,
  leave_failed, status_steps,
}
use caffe2_operator.Controller.Status.Steps.{start_ok, running_ok, succeeded_ok}

module _ (k : Cluster) where
  start-spec : (b : Bool) (st : Stage) → (set_start_time k b st).1.0.spec ≡ st.0.spec
  unfolding set_start_time
  start-spec false st = refl
  start-spec true st = refl

  running-spec :
      (b : Bool) (name : String) (st : Stage) → (leave_running k b name st).1.0.spec ≡ st.0.spec
  unfolding leave_running update_conditions
  running-spec false name st = refl
  running-spec true name st = refl

  succeeded-spec :
      (b : Bool) (name : String) (st : Stage) → (leave_succeeded k b name st).1.0.spec ≡ st.0.spec
  unfolding leave_succeeded set_completion_time update_conditions
  succeeded-spec false name st = refl
  succeeded-spec true name st = refl

  failed-spec :
      (b : Bool) (name : String) (st : Stage) → (leave_failed k b name st).1.0.spec ≡ st.0.spec
  unfolding leave_failed update_conditions
  failed-spec false name st = refl
  failed-spec true name st = refl

  pub status_steps-spec :
      (r : Caffe2ReplicaStatus) (replicas : ℤ) (name : String) (st : Stage)
      → (status_steps k r replicas name st).1.0.spec ≡ st.0.spec
  unfolding status_steps
  status_steps-spec r replicas name st =
      simp
        (start_ok, running_ok, succeeded_ok, start-spec, running-spec, succeeded-spec, failed-spec)

  start-calls : (b : Bool) (st : Stage) → (set_start_time k b st).1.1.calls ≡ st.1.calls
  unfolding set_start_time
  start-calls false st = refl
  start-calls true st = refl

  running-calls :
      (b : Bool) (name : String) (st : Stage) → (leave_running k b name st).1.1.calls ≡ st.1.calls
  unfolding leave_running update_conditions
  running-calls false name st = refl
  running-calls true name st = refl

  succeeded-calls :
      (b : Bool) (name : String) (st : Stage) → (leave_succeeded k b name st).1.1.calls ≡ st.1.calls
  unfolding leave_succeeded set_completion_time update_conditions
  succeeded-calls false name st = refl
  succeeded-calls true name st = refl

  failed-calls :
      (b : Bool) (name : String) (st : Stage) → (leave_failed k b name st).1.1.calls ≡ st.1.calls
  unfolding leave_failed update_conditions
  failed-calls false name st = refl
  failed-calls true name st = refl

  pub status_steps-calls :
      (r : Caffe2ReplicaStatus) (replicas : ℤ) (name : String) (st : Stage)
      → (status_steps k r replicas name st).1.1.calls ≡ st.1.calls
  unfolding status_steps
  status_steps-calls r replicas name st = simp (
    start_ok, running_ok, succeeded_ok, start-calls, running-calls, succeeded-calls, failed-calls,
  )
