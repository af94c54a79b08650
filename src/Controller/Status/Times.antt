-- ===== src/Controller/Status/Times.antt =====
-- The start and completion times that `updateStatus` writes.
use caffe2_operator.Prelude.{
  ℕ, ◌≤◌, String, Bool, true, false, none, some, ◌≡◌, refl, ◌∙◌, ap, if◌then◌else◌, arith,
}
use caffe2_operator.Prelude.Int.{ℤ, pos, int_eq, int_lt, ◌-ℤ◌}
use caffe2_operator.Go.{Runs, Runs-deref, Runs-both}
use caffe2_operator.Api.Types.{Caffe2ReplicaStatus, Caffe2JobCondition, Caffe2JobStatus, Caffe2Job}
use caffe2_operator.Controller.Cluster.{World, Cluster}
use caffe2_operator.Controller.Conditions.{set_condition}
use caffe2_operator.Controller.Status.{
  Stage, update_conditions, set_start_time, set_completion_time, leave_running, leave_succeeded,
  leave_failed, status_steps, update_status,
}
use caffe2_operator.Controller.Status.Laws.{Reported, update_status_reports}
use caffe2_operator.Controller.Status.Steps.{start_ok, running_ok, succeeded_ok}

abbrev SameTimes : Stage → Stage → Type 0
SameTimes old new =
    (new.0.status.start_time ≡ old.0.status.start_time)
    × (new.0.status.completion_time ≡ old.0.status.completion_time)
    × (old.1.readings ≤ new.1.readings)

set_condition-times :
    (s : Caffe2JobStatus) (c : Caffe2JobCondition)
    → ((set_condition s c).start_time ≡ s.start_time)
      × ((set_condition s c).completion_time ≡ s.completion_time)
unfolding set_condition
set_condition-times s c = ground arith

module _ (k : Cluster) where
  update-SameTimes :
      (type reason message : String) (st : Stage)
      → SameTimes st (update_conditions k type reason message st).1
  unfolding update_conditions
  update-SameTimes type reason message st =
      ((set_condition-times st.0.status _).0, (set_condition-times st.0.status _).1, omega arith)

  running-SameTimes :
      (b : Bool) (name : String) (st : Stage) → SameTimes st (leave_running k b name st).1
  unfolding leave_running
  running-SameTimes false name st = (refl, refl, omega arith)
  running-SameTimes true name st = update-SameTimes _ _ _ st

  failed-SameTimes :
      (b : Bool) (name : String) (st : Stage) → SameTimes st (leave_failed k b name st).1
  unfolding leave_failed
  failed-SameTimes false name st = (refl, refl, omega arith)
  failed-SameTimes true name st = update-SameTimes _ _ _ st

  -- The start time is read off the clock anew, and the completion time stays.
  starts :
      (b : Bool) (st : Stage)
      → ((set_start_time k b st).1.0.status.start_time
          ≡ (if b then some (k.clock st.1.readings) else st.0.status.start_time))
        × ((set_start_time k b st).1.0.status.completion_time ≡ st.0.status.completion_time)
        × (st.1.readings ≤ (set_start_time k b st).1.1.readings)
  unfolding set_start_time
  starts false st = (refl, refl, omega arith)
  starts true st = (refl, refl, omega arith)

  -- And the other way round.
  completes :
      (b : Bool) (name : String) (st : Stage)
      → ((leave_succeeded k b name st).1.0.status.start_time ≡ st.0.status.start_time)
        × ((leave_succeeded k b name st).1.0.status.completion_time
            ≡ (if b then some (k.clock st.1.readings) else st.0.status.completion_time))
  unfolding leave_succeeded set_completion_time
  completes false name st = (refl, refl)
  completes true name st = let u = update-SameTimes _ _ _ (set_completion_time k st).1 in (u.0, u.1)

  -- What `updateStatus` makes of the two times, with the clock's reading for each.
  pub record Timed (r : Caffe2ReplicaStatus) (replicas : ℤ) (old : Stage) (new : Caffe2Job)
      : Type 0 where
    pub start_time : new.status.start_time ≡ (
        if int_eq r.active replicas then some (k.clock old.1.readings) else old.0.status.start_time)
    pub reading : ℕ
    pub later : old.1.readings ≤ reading
    pub completion_time : new.status.completion_time ≡ (
        if int_eq (replicas -ℤ r.succeeded) (pos 0)
        then some (k.clock reading)
        else old.0.status.completion_time)

  status_steps-Timed :
      (r : Caffe2ReplicaStatus) (replicas : ℤ) (name : String) (st : Stage)
      → Timed r replicas st (status_steps k r replicas name st).1.0
  unfolding status_steps
  status_steps-Timed r replicas name st =
      let s1 = (set_start_time k (int_eq r.active replicas) st).1 in
      let s2 = (leave_running k (int_lt (pos 0) r.active) name s1).1 in
      let s3 = (leave_succeeded k (int_eq (replicas -ℤ r.succeeded) (pos 0)) name s2).1 in
      let (a1, c1, l1) = starts (int_eq r.active replicas) st in
      let (a2, c2, l2) = running-SameTimes (int_lt (pos 0) r.active) name s1 in
      let (a3, c3) = completes (int_eq (replicas -ℤ r.succeeded) (pos 0)) name s2 in
      let (a4, c4, l4) = failed-SameTimes (int_lt (pos 0) r.failed) name s3 in
      simp (start_ok, running_ok, succeeded_ok)
        (record {
          start_time = a4 ∙ a3 ∙ a2 ∙ a1;
          reading = s2.1.readings;
          later = omega arith;
          completion_time =
              c4
              ∙ c3
              ∙ ap
                  (λ o.
                    if int_eq (replicas -ℤ r.succeeded) (pos 0)
                    then some (k.clock s2.1.readings)
                    else o)
                  (c2 ∙ c1);
        })

  update_status-Timed :
      (job : Caffe2Job) (w : World) (replicas : ℤ) (r : Caffe2ReplicaStatus)
      → job.status.replica_statuses ≡ some r
      → Runs (λ x. Timed r replicas (job, w) x.1.0) (update_status k replicas (job, w))
  unfolding update_status
  update_status-Timed job w replicas r h =
      Runs-deref (λ x. Timed r replicas (job, w) x.1.0) job.status.replica_statuses r _ h
        (status_steps-Timed r replicas job.meta.name (job, w))

  -- `updateStatus` on a job with counters returns nil. It sets the Running condition exactly where a
  -- replica is active, Succeeded exactly where as many replicas have succeeded as are wanted, and Failed
  -- exactly where one has failed, each with its reason; every other condition and the counters stay. The
  -- start time is a new reading of the clock where as many replicas are active as are wanted, and the
  -- completion time where as many have succeeded, whatever they were before; else they stay.
  pub update_status_effects :
      (job : Caffe2Job) (w : World) (replicas : ℤ) (r : Caffe2ReplicaStatus)
      → job.status.replica_statuses ≡ some r
      → Runs
          (λ x.
            ((x.0 ≡ none) × Reported r replicas (job, w) x.1.0) × Timed r replicas (job, w) x.1.0)
          (update_status k replicas (job, w))
  update_status_effects job w replicas r h =
      Runs-both (λ x. Timed r replicas (job, w) x.1.0)
        (λ x. (x.0 ≡ none) × Reported r replicas (job, w) x.1.0) (update_status k replicas (job, w))
        (update_status-Timed job w replicas r h) (update_status_reports k job w replicas r h)
