-- ===== src/Api/DeepCopy/Reads.antt =====
-- What the stored API objects read as: the values of `Types`.
use caffe2_operator.Prelude.{Option, none, some, List, [], ◌≡◌}
use caffe2_operator.Kube.{Time, ObjectMeta, PodTemplateSpec}
use caffe2_operator.Api.Types.{
  TerminationPolicySpec, Caffe2ReplicaSpec, Caffe2JobSpec, Caffe2JobCondition, Caffe2JobStatus,
  Caffe2Job,
}
use caffe2_operator.Api.Memory.{
  Layout, Address, Pointer, Cell, Heap, TypeMeta, StoredTerminationPolicy, StoredReplicaSpec,
  StoredJobSpec, StoredJobStatus, StoredCondition, StoredJob, StoredJobList, as_int32, as_backend,
  as_chief, as_termination_policy, as_replica_spec, as_replica_status, as_conditions, as_jobs,
  as_time, as_template,
}
use caffe2_operator.Api.Memory.Copies.{Reading, PointsTo, EachReads, Moves, Copies}
use caffe2_operator.Api.DeepCopy.{Foreign}

pub record TypedJob : Type 0 where
  pub type_meta : TypeMeta
  pub job : Caffe2Job

pub record TypedJobList (l : Layout) : Type 0 where
  pub type_meta : TypeMeta
  pub list_meta : l.ListMeta
  pub items : List TypedJob

module _ {l : Layout} where
  -- A struct without pointers is its own value.
  abbrev pub Same : {T : Type 0} → Reading l T T
  Same P h t v = t ≡ v

  -- A nil slice reads as the empty one does.
  abbrev pub SliceReads :
      {T V : Type 0} → (Cell l → Option (List T)) → Reading l T V → Reading l Pointer (List V)
  SliceReads out R P h none vs = vs ≡ []
  SliceReads out R P h (some a) vs = PointsTo out (EachReads R) P h (some a) (some vs)

-- What the operator relies on in the deep copies of the Kubernetes types.
pub record Promises {l : Layout} (f : Foreign l) : Type 1 where
  pub MetaReads : Reading l l.Meta ObjectMeta
  pub meta_moves : Moves l l.Meta ObjectMeta MetaReads
  pub meta_copies : Copies l l.Meta ObjectMeta MetaReads f.copy_meta
  pub TemplateReads : Reading l l.Template PodTemplateSpec
  pub template_moves : Moves l l.Template PodTemplateSpec TemplateReads
  pub template_copies : Copies l l.Template PodTemplateSpec TemplateReads f.copy_template
  pub MomentReads : Reading l l.Moment Time
  pub moment_moves : Moves l l.Moment Time MomentReads
  pub moment_copies : Copies l l.Moment Time MomentReads f.copy_moment

module _ {l : Layout} where
  pub record TerminationPolicyReads (P : Address → Type 0) (h : Heap l)
      (t : StoredTerminationPolicy) (v : TerminationPolicySpec) : Type 0 where
    pub chief : PointsTo as_chief Same P h t.chief v.chief

module _ {l : Layout} (f : Foreign l) (p : Promises f) where
  pub record ReplicaSpecReads (P : Address → Type 0) (h : Heap l) (t : StoredReplicaSpec)
      (v : Caffe2ReplicaSpec) : Type 0 where
    pub replicas : PointsTo as_int32 Same P h t.replicas v.replicas
    pub template : PointsTo as_template p.TemplateReads P h t.template v.template

  pub record ConditionReads (P : Address → Type 0) (h : Heap l) (t : StoredCondition l)
      (v : Caffe2JobCondition) : Type 0 where
    pub type : t.type ≡ v.type
    pub status : t.status ≡ v.status
    pub reason : t.reason ≡ v.reason
    pub message : t.message ≡ v.message
    pub last_update_time : p.MomentReads P h t.last_update_time v.last_update_time
    pub last_transition_time : p.MomentReads P h t.last_transition_time v.last_transition_time

  pub record JobSpecReads (P : Address → Type 0) (h : Heap l) (t : StoredJobSpec)
      (v : Caffe2JobSpec) : Type 0 where
    pub runtime_id : t.runtime_id ≡ v.runtime_id
    pub backend : PointsTo as_backend Same P h t.backend v.backend
    pub replica_specs :
        PointsTo as_replica_spec ReplicaSpecReads P h t.replica_specs v.replica_specs
    pub termination_policy :
        PointsTo as_termination_policy TerminationPolicyReads P h t.termination_policy
          v.termination_policy

  pub record JobStatusReads (P : Address → Type 0) (h : Heap l) (t : StoredJobStatus)
      (v : Caffe2JobStatus) : Type 0 where
    pub conditions : SliceReads as_conditions ConditionReads P h t.conditions v.conditions
    pub replica_statuses : PointsTo as_replica_status Same P h t.replica_statuses v.replica_statuses
    pub start_time : PointsTo as_time p.MomentReads P h t.start_time v.start_time
    pub completion_time : PointsTo as_time p.MomentReads P h t.completion_time v.completion_time
    pub last_reconcile_time :
        PointsTo as_time p.MomentReads P h t.last_reconcile_time v.last_reconcile_time

  pub record JobReads (P : Address → Type 0) (h : Heap l) (t : StoredJob l) (v : TypedJob)
      : Type 0 where
    pub type_meta : t.type_meta ≡ v.type_meta
    pub meta : p.MetaReads P h t.meta v.job.meta
    pub spec : JobSpecReads P h t.spec v.job.spec
    pub status : JobStatusReads P h t.status v.job.status

  pub record JobListReads (P : Address → Type 0) (h : Heap l) (t : StoredJobList l)
      (v : TypedJobList l) : Type 0 where
    pub type_meta : t.type_meta ≡ v.type_meta
    pub list_meta : t.list_meta ≡ v.list_meta
    pub items : SliceReads as_jobs JobReads P h t.items v.items
