-- ===== src/Controller/Conditions.antt =====
-- The conditions of a job's status: the end of pkg/controller/controller.go.
pub mod Laws
use caffe2_operator.Prelude.{
  String, Option, none, some, Bool, List, [], ◌∷◌, ◌++◌, not, ◌&&◌, keep, if◌then◌else◌,
}
use text.Mathlib.Text.{◌==◌}
use caffe2_operator.Kube.{Time}
use caffe2_operator.Api.Types.{Caffe2JobCondition, Caffe2JobStatus}

-- `newCondition`, with the two readings of the clock.
unfoldable pub new_condition : String → String → String → Time → Time → Caffe2JobCondition
new_condition type reason message updated transitioned = record {
  type = type;
  status = "True";
  reason = reason;
  message = message;
  last_update_time = updated;
  last_transition_time = transitioned;
}

-- The loop of `getCondition`.
unfoldable pub find_condition : String → List Caffe2JobCondition → Option Caffe2JobCondition
find_condition cond_type [] = none
find_condition cond_type (c ∷ cs) =
    if c.type == cond_type then some c else find_condition cond_type cs

unfoldable pub get_condition : Caffe2JobStatus → String → Option Caffe2JobCondition
unfolding find_condition
get_condition status cond_type = find_condition cond_type status.conditions

unfoldable pub filter_out_condition : List Caffe2JobCondition → String → List Caffe2JobCondition
filter_out_condition [] cond_type = []
filter_out_condition (c ∷ cs) cond_type =
    if c.type == cond_type
    then filter_out_condition cs cond_type
    else c ∷ filter_out_condition cs cond_type

-- `currentCond != nil && currentCond.Status == condition.Status`
same_status : Option Caffe2JobCondition → Caffe2JobCondition → Bool
same_status none condition = Bool.false
same_status (some current) condition = current.status == condition.status

same_reason : Option Caffe2JobCondition → Caffe2JobCondition → Bool
same_reason none condition = Bool.false
same_reason (some current) condition = current.reason == condition.reason

-- The transition time is kept where the status is.
keep_transition : Option Caffe2JobCondition → Caffe2JobCondition → Caffe2JobCondition
keep_transition none condition = condition
keep_transition (some current) condition =
    if current.status == condition.status
    then record condition { last_transition_time = current.last_transition_time }
    else condition

unfoldable pub set_condition : Caffe2JobStatus → Caffe2JobCondition → Caffe2JobStatus
unfolding get_condition filter_out_condition same_status same_reason keep_transition
set_condition status condition =
    let current = get_condition status condition.type in
    if same_status current condition && same_reason current condition
    then status
    else record status {
      conditions =
          filter_out_condition status.conditions condition.type
          ++ keep_transition current condition ∷ [];
    }

-- `removementCondition`
unfoldable pub remove_condition : Caffe2JobStatus → String → Caffe2JobStatus
unfolding filter_out_condition
remove_condition status cond_type = record status {
  conditions = filter_out_condition status.conditions cond_type;
}
