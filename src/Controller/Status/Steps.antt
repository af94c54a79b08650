-- ===== src/Controller/Status/Steps.antt =====
-- What each step of `update_status` does to the conditions.
use caffe2_operator.Prelude.{
  String, ◌≡◌, refl, ◌∙◌, Bool, true, false, ◌&&◌, Option, none, some, if◌then◌else◌,
}
use text.Mathlib.Text.{◌==◌}
use text.Mathlib.TextPositions.{eq_refl}
use caffe2_operator.Prelude.Text.{◌<>◌}
use caffe2_operator.Go.{Error}
use caffe2_operator.Api.Types.{
  Caffe2JobCondition, Caffe2Job, caffe2_job_running, caffe2_job_succeeded, caffe2_job_failed,
}
use caffe2_operator.Controller.Conditions.{new_condition, get_condition}
use caffe2_operator.Controller.Conditions.Laws.{
  updated, get-set_condition, updated_fields, set_condition_rest,
}
use caffe2_operator.Controller.Cluster.{Cluster}
use caffe2_operator.Controller.Status.{
  Stage, unless_error, ◌>=>◌, update_conditions, set_start_time, set_completion_time, leave_running,
  leave_succeeded, leave_failed, caffe2_job_running_reason, caffe2_job_succeeded_reason,
  caffe2_job_failed_reason,
}

-- The job has a condition of the type that is true, for the reason.
pub HasCondition : String → String → Caffe2Job → Type 0
HasCondition type reason job =
    (c : Caffe2JobCondition) × (get_condition job.status type ≡ some c)
    × (c.status ≡ "True")
    × (c.reason ≡ reason)

pub HasCondition-keep :
    (type reason : String) (old new : Caffe2Job)
    → get_condition new.status type ≡ get_condition old.status type
    → HasCondition type reason old
    → HasCondition type reason new
unfolding HasCondition
HasCondition-keep type reason old new e (c, f, t, r) = (c, e ∙ f, t, r)

pub and_false : (b c : Bool) → c ≡ false → (b && c) ≡ false
and_false true c h = h
and_false false c h = refl

module _ (k : Cluster) where
  pub chain :
      (f g : Stage → Option Error × Stage) (x : Stage) → (f x).0 ≡ none → (f >=> g) x ≡ g (f x).1
  chain f g x h = rw (h, unless_error)

  -- The condition that one update leaves under each type.
  found :
      (type reason message u : String) (st : Stage)
      → get_condition (update_conditions k type reason message st).1.0.status u ≡ (
          if type == u
          then some (
              updated (get_condition st.0.status type) (
                new_condition type reason message
                  (k.clock st.1.readings)
                  (k.clock (Prim.Native.Nat.suc st.1.readings))))
          else get_condition st.0.status u)
  unfolding update_conditions new_condition
  found type reason message u st = get-set_condition st.0.status _ u

  kept_statuses :
      (type reason message : String) (st : Stage)
      → (update_conditions k type reason message st).1.0.status.replica_statuses
        ≡ st.0.status.replica_statuses
  unfolding update_conditions
  kept_statuses type reason message st = (set_condition_rest st.0.status _).0

  pub running_ok : (b : Bool) (name : String) (st : Stage) → (leave_running k b name st).0 ≡ none
  unfolding leave_running
  running_ok false name st = refl
  running_ok true name st = refl

  pub succeeded_ok :
      (b : Bool) (name : String) (st : Stage) → (leave_succeeded k b name st).0 ≡ none
  unfolding leave_succeeded
  succeeded_ok false name st = refl
  succeeded_ok true name st = refl

  pub start_ok : (b : Bool) (st : Stage) → (set_start_time k b st).0 ≡ none
  unfolding set_start_time
  start_ok false st = refl
  start_ok true st = refl

  pub failed_ok : (b : Bool) (name : String) (st : Stage) → (leave_failed k b name st).0 ≡ none
  unfolding leave_failed
  failed_ok false name st = refl
  failed_ok true name st = refl

  -- A condition of type `type` is left if `b` holds, and the others stay: what each step does.
  pub record Step (b : Bool) (type reason : String) (old new : Stage) : Type 0 where
    pub sets : b ≡ true → HasCondition type reason new.0
    pub keeps :
        (u : String)
        → (b && type == u) ≡ false
        → get_condition new.0.status u ≡ get_condition old.0.status u
    pub statuses : new.0.status.replica_statuses ≡ old.0.status.replica_statuses

  pub is_set :
      (type reason message : String) (st : Stage)
      → HasCondition type reason (update_conditions k type reason message st).1.0
  unfolding HasCondition new_condition
  is_set type reason message st =
      let c =
        new_condition type reason message (k.clock st.1.readings)
          (k.clock (Prim.Native.Nat.suc st.1.readings)) in
      let o = get_condition st.0.status type in
      (
        updated o c,
        rw (found type reason message type st, eq_refl),
        (updated_fields o c).0,
        (updated_fields o c).1,
      )

  update-Step :
      (type reason message : String) (st : Stage)
      → Step true type reason st (update_conditions k type reason message st).1
  update-Step type reason message st = record {
    sets = λ e. is_set type reason message st;
    keeps = λ u h. rw (found type reason message u st, h);
    statuses = kept_statuses type reason message st;
  }

  none-Step : (type reason : String) (st : Stage) → Step false type reason st st
  none-Step type reason st = record { sets = λ e. cc; keeps = λ u h. refl; statuses = refl }

  pub running-Step :
      (b : Bool) (name : String) (st : Stage)
      → Step b caffe2_job_running caffe2_job_running_reason st (leave_running k b name st).1
  unfolding leave_running
  running-Step false name st = none-Step _ _ st
  running-Step true name st = update-Step _ _ _ st

  pub failed-Step :
      (b : Bool) (name : String) (st : Stage)
      → Step b caffe2_job_failed caffe2_job_failed_reason st (leave_failed k b name st).1
  unfolding leave_failed
  failed-Step false name st = none-Step _ _ st
  failed-Step true name st = update-Step _ _ _ st

  pub succeeded-Step :
      (b : Bool) (name : String) (st : Stage)
      → Step b caffe2_job_succeeded caffe2_job_succeeded_reason st (leave_succeeded k b name st).1
  unfolding leave_succeeded set_completion_time get_condition
  succeeded-Step false name st = none-Step _ _ st
  succeeded-Step true name st =
      let s =
        update-Step caffe2_job_succeeded caffe2_job_succeeded_reason
          ("Caffe2Job " <> name <> " is successfully completed.") (set_completion_time k st).1 in
      record { sets = s.sets; keeps = s.keeps; statuses = s.statuses }

  pub start-keeps :
      (b : Bool) (st : Stage) (u : String)
      → (get_condition (set_start_time k b st).1.0.status u ≡ get_condition st.0.status u)
        × ((set_start_time k b st).1.0.status.replica_statuses ≡ st.0.status.replica_statuses)
  unfolding set_start_time get_condition
  start-keeps false st u = (refl, refl)
  start-keeps true st u = (refl, refl)
