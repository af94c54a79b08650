-- ===== src/Api/Memory.antt =====
-- The objects of the API as Go keeps them: structs whose pointers and slices are addresses of a
-- heap (pkg/apis/caffe2/v1alpha1/types.go). The forms of the Kubernetes objects are parameters.
pub mod Copies
use caffe2_operator.Prelude.{ℕ, String, Option, none, some, List, [], ◌∷◌, ◌++◌, length, get_elem?}
use caffe2_operator.Prelude.Int.{ℤ}
use caffe2_operator.Api.Types.{Caffe2BackendSpec, ChiefSpec, Caffe2ReplicaStatus}

-- How Go keeps `ObjectMeta`, `PodTemplateSpec`, `metav1.Time`, `ListMeta`, and what these point to.
pub record Layout : Type 1 where
  pub Meta : Type 0
  pub Template : Type 0
  pub Moment : Type 0
  pub ListMeta : Type 0
  pub Other : Type 0

abbrev pub Address : Type 0
Address = ℕ

-- `*T` and the array of a slice `[]T`; nil is `none`
abbrev pub Pointer : Type 0
Pointer = Option Address

pub record TypeMeta : Type 0 where
  pub kind : String
  pub api_version : String

pub record StoredTerminationPolicy : Type 0 where
  pub chief : Pointer

pub record StoredReplicaSpec : Type 0 where
  pub replicas : Pointer
  pub template : Pointer

pub record StoredJobSpec : Type 0 where
  pub runtime_id : String
  pub backend : Pointer
  pub replica_specs : Pointer
  pub termination_policy : Pointer

pub record StoredJobStatus : Type 0 where
  pub conditions : Pointer
  pub replica_statuses : Pointer
  pub start_time : Pointer
  pub completion_time : Pointer
  pub last_reconcile_time : Pointer

pub record StoredCondition (l : Layout) : Type 0 where
  pub type : String
  pub status : String
  pub reason : String
  pub message : String
  pub last_update_time : l.Moment
  pub last_transition_time : l.Moment

pub record StoredJob (l : Layout) : Type 0 where
  pub type_meta : TypeMeta
  pub meta : l.Meta
  pub spec : StoredJobSpec
  pub status : StoredJobStatus

pub record StoredJobList (l : Layout) : Type 0 where
  pub type_meta : TypeMeta
  pub list_meta : l.ListMeta
  pub items : Pointer

-- What an address holds.
pub data Cell (l : Layout) : Type 0 where
  int32 : ℤ → Cell l
  backend : Caffe2BackendSpec → Cell l
  chief : ChiefSpec → Cell l
  termination_policy : StoredTerminationPolicy → Cell l
  replica_spec : StoredReplicaSpec → Cell l
  replica_status : Caffe2ReplicaStatus → Cell l
  job_spec : StoredJobSpec → Cell l
  job_status : StoredJobStatus → Cell l
  condition : StoredCondition l → Cell l
  conditions : List (StoredCondition l) → Cell l
  job : StoredJob l → Cell l
  jobs : List (StoredJob l) → Cell l
  job_list : StoredJobList l → Cell l
  time : l.Moment → Cell l
  template : l.Template → Cell l
  other : l.Other → Cell l

-- The addresses in use are those below the length.
abbrev pub Heap : Layout → Type 0
Heap l = List (Cell l)

-- `new` and `make`: the next address, and the heap with what it holds.
abbrev pub allocate : {l : Layout} → Cell l → Heap l → Address × Heap l
allocate c h = (length h, h ++ (c ∷ []))

module _ {l : Layout} where
  -- A cell of a given type.
  abbrev pub as_int32 : Cell l → Option ℤ
  as_int32 (int32 x) = some x
  as_int32 _ = none

  abbrev pub as_backend : Cell l → Option Caffe2BackendSpec
  as_backend (backend x) = some x
  as_backend _ = none

  abbrev pub as_chief : Cell l → Option ChiefSpec
  as_chief (chief x) = some x
  as_chief _ = none

  abbrev pub as_termination_policy : Cell l → Option StoredTerminationPolicy
  as_termination_policy (termination_policy x) = some x
  as_termination_policy _ = none

  abbrev pub as_replica_spec : Cell l → Option StoredReplicaSpec
  as_replica_spec (replica_spec x) = some x
  as_replica_spec _ = none

  abbrev pub as_replica_status : Cell l → Option Caffe2ReplicaStatus
  as_replica_status (replica_status x) = some x
  as_replica_status _ = none

  abbrev pub as_job_spec : Cell l → Option StoredJobSpec
  as_job_spec (job_spec x) = some x
  as_job_spec _ = none

  abbrev pub as_job_status : Cell l → Option StoredJobStatus
  as_job_status (job_status x) = some x
  as_job_status _ = none

  abbrev pub as_condition : Cell l → Option (StoredCondition l)
  as_condition (condition x) = some x
  as_condition _ = none

  abbrev pub as_conditions : Cell l → Option (List (StoredCondition l))
  as_conditions (conditions x) = some x
  as_conditions _ = none

  abbrev pub as_job : Cell l → Option (StoredJob l)
  as_job (job x) = some x
  as_job _ = none

  abbrev pub as_jobs : Cell l → Option (List (StoredJob l))
  as_jobs (jobs x) = some x
  as_jobs _ = none

  abbrev pub as_job_list : Cell l → Option (StoredJobList l)
  as_job_list (job_list x) = some x
  as_job_list _ = none

  abbrev pub as_time : Cell l → Option l.Moment
  as_time (time x) = some x
  as_time _ = none

  abbrev pub as_template : Cell l → Option l.Template
  as_template (template x) = some x
  as_template _ = none
