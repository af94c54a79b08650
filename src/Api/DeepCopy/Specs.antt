-- ===== src/Api/DeepCopy/Specs.antt =====
-- The `DeepCopyInto` of the parts of a job's spec, and of a condition, copy.
use caffe2_operator.Prelude.{refl}
use caffe2_operator.Go.{Runs-then}
use caffe2_operator.Api.Types.{
  TerminationPolicySpec, Caffe2ReplicaSpec, Caffe2JobSpec, Caffe2JobCondition,
}
use caffe2_operator.Api.Memory.{
  Layout, StoredTerminationPolicy, StoredReplicaSpec, StoredJobSpec, StoredCondition, int32,
  backend, chief, termination_policy, replica_spec, template, as_int32, as_backend, as_chief,
  as_termination_policy, as_replica_spec, as_template,
}
use caffe2_operator.Api.Memory.Copies.{
  PointsTo, Moves, Copies, Copied, Copied-reads, Reading-later, Later, Later-refl, Later-trans,
  PointsTo-Moves, PointsTo-Copies, copy_pointer, flat,
}
use caffe2_operator.Api.DeepCopy.{
  Foreign, deep_copy_into_termination_policy, deep_copy_into_replica_spec, deep_copy_into_condition,
  deep_copy_into_job_spec,
}
use caffe2_operator.Api.DeepCopy.Reads.{
  Same, Promises, TerminationPolicyReads, ReplicaSpecReads, ConditionReads, JobSpecReads,
}
use caffe2_operator.Api.DeepCopy.Flat.{Same-Moves, flat-Same}

module _ {l : Layout} where
  pub TerminationPolicyReads-Moves :
      Moves l StoredTerminationPolicy TerminationPolicySpec TerminationPolicyReads
  TerminationPolicyReads-Moves P Q h h' t v wider agree r = record {
    chief = PointsTo-Moves Same Same-Moves as_chief P Q h h' t.chief v.chief wider agree r.chief;
  }

  pub TerminationPolicyReads-Copies :
      Copies l StoredTerminationPolicy TerminationPolicySpec TerminationPolicyReads
        deep_copy_into_termination_policy
  unfolding deep_copy_into_termination_policy
  TerminationPolicyReads-Copies P h t v r =
      Runs-then (Copied (PointsTo as_chief Same) h v.chief) (Copied TerminationPolicyReads h v)
        ((copy_pointer as_chief chief flat) t.chief h) _
        (PointsTo-Copies Same Same-Moves flat flat-Same as_chief chief (λ x. refl) P h t.chief
          v.chief r.chief)
        (λ (x1, h1) d1.
          let b1 : Later h h1 = d1.later in
          record {
            later = b1;
            reads = record {
              chief =
                  Copied-reads (PointsTo as_chief Same) (PointsTo-Moves Same Same-Moves as_chief) h
                    h h1 v.chief (x1, h1) (Later-refl h) d1 (Later-refl h1);
            };
          })

module _ {l : Layout} (f : Foreign l) (p : Promises f) where
  pub ReplicaSpecReads-Moves : Moves l StoredReplicaSpec Caffe2ReplicaSpec (ReplicaSpecReads f p)
  ReplicaSpecReads-Moves P Q h h' t v wider agree r = record {
    replicas =
        PointsTo-Moves Same Same-Moves as_int32 P Q h h' t.replicas v.replicas wider agree
          r.replicas;
    template =
        PointsTo-Moves p.TemplateReads p.template_moves as_template P Q h h' t.template v.template
          wider agree r.template;
  }

  pub ReplicaSpecReads-Copies :
      Copies l StoredReplicaSpec Caffe2ReplicaSpec
        (ReplicaSpecReads f p)
        (deep_copy_into_replica_spec f)
  unfolding deep_copy_into_replica_spec
  ReplicaSpecReads-Copies P h t v r =
      Runs-then (Copied (PointsTo as_int32 Same) h v.replicas) (Copied (ReplicaSpecReads f p) h v)
        ((copy_pointer as_int32 int32 flat) t.replicas h) _
        (PointsTo-Copies Same Same-Moves flat flat-Same as_int32 int32 (λ x. refl) P h t.replicas
          v.replicas r.replicas)
        (λ (x1, h1) d1.
          let b1 : Later h h1 = d1.later in
          Runs-then (Copied (PointsTo as_template p.TemplateReads) h1 v.template)
            (Copied (ReplicaSpecReads f p) h v)
            ((copy_pointer as_template template f.copy_template) t.template h1) _
            (PointsTo-Copies p.TemplateReads p.template_moves f.copy_template p.template_copies
              as_template template (λ x. refl) P h1 t.template v.template
              (Reading-later (PointsTo as_template p.TemplateReads)
                (PointsTo-Moves p.TemplateReads p.template_moves as_template) P h h1 t.template
                v.template b1 r.template))
            (λ (x2, h2) d2.
              let b2 : Later h h2 = (Later-trans h h1 h2 b1 d2.later) in
              record {
                later = b2;
                reads = record {
                  replicas =
                      Copied-reads (PointsTo as_int32 Same)
                        (PointsTo-Moves Same Same-Moves as_int32) h h h2 v.replicas (x1, h1)
                        (Later-refl h) d1 d2.later;
                  template =
                      Copied-reads (PointsTo as_template p.TemplateReads)
                        (PointsTo-Moves p.TemplateReads p.template_moves as_template) h h1 h2
                        v.template (x2, h2) b1 d2 (Later-refl h2);
                };
              }))

  pub ConditionReads-Moves : Moves l (StoredCondition l) Caffe2JobCondition (ConditionReads f p)
  ConditionReads-Moves P Q h h' t v wider agree r = record {
    type = r.type;
    status = r.status;
    reason = r.reason;
    message = r.message;
    last_update_time =
        p.moment_moves P Q h h' t.last_update_time v.last_update_time wider agree
          r.last_update_time;
    last_transition_time =
        p.moment_moves P Q h h' t.last_transition_time v.last_transition_time wider agree
          r.last_transition_time;
  }

  pub ConditionReads-Copies :
      Copies l
        (StoredCondition l)
        Caffe2JobCondition
        (ConditionReads f p)
        (deep_copy_into_condition f)
  unfolding deep_copy_into_condition
  ConditionReads-Copies P h t v r =
      Runs-then (Copied p.MomentReads h v.last_update_time) (Copied (ConditionReads f p) h v)
        (f.copy_moment t.last_update_time h) _
        (p.moment_copies P h t.last_update_time v.last_update_time r.last_update_time)
        (λ (x1, h1) d1.
          let b1 : Later h h1 = d1.later in
          Runs-then (Copied p.MomentReads h1 v.last_transition_time)
            (Copied (ConditionReads f p) h v) (f.copy_moment t.last_transition_time h1) _
            (p.moment_copies P h1 t.last_transition_time v.last_transition_time (
              Reading-later p.MomentReads p.moment_moves P h h1 t.last_transition_time
                v.last_transition_time b1 r.last_transition_time))
            (λ (x2, h2) d2.
              let b2 : Later h h2 = (Later-trans h h1 h2 b1 d2.later) in
              record {
                later = b2;
                reads = record {
                  type = r.type;
                  status = r.status;
                  reason = r.reason;
                  message = r.message;
                  last_update_time =
                      Copied-reads p.MomentReads p.moment_moves h h h2 v.last_update_time (x1, h1)
                        (Later-refl h) d1 d2.later;
                  last_transition_time =
                      Copied-reads p.MomentReads p.moment_moves h h1 h2 v.last_transition_time
                        (x2, h2) b1 d2 (Later-refl h2);
                };
              }))

  pub JobSpecReads-Moves : Moves l StoredJobSpec Caffe2JobSpec (JobSpecReads f p)
  JobSpecReads-Moves P Q h h' t v wider agree r = record {
    runtime_id = r.runtime_id;
    backend =
        PointsTo-Moves Same Same-Moves as_backend P Q h h' t.backend v.backend wider agree
          r.backend;
    replica_specs =
        PointsTo-Moves (ReplicaSpecReads f p) ReplicaSpecReads-Moves as_replica_spec P Q h h'
          t.replica_specs v.replica_specs wider agree r.replica_specs;
    termination_policy =
        PointsTo-Moves TerminationPolicyReads TerminationPolicyReads-Moves as_termination_policy P Q
          h h' t.termination_policy v.termination_policy wider agree r.termination_policy;
  }

  pub JobSpecReads-Copies :
      Copies l StoredJobSpec Caffe2JobSpec (JobSpecReads f p) (deep_copy_into_job_spec f)
  unfolding deep_copy_into_job_spec
  JobSpecReads-Copies P h t v r =
      Runs-then (Copied (PointsTo as_backend Same) h v.backend) (Copied (JobSpecReads f p) h v)
        ((copy_pointer as_backend backend flat) t.backend h) _
        (PointsTo-Copies Same Same-Moves flat flat-Same as_backend backend (λ x. refl) P h t.backend
          v.backend r.backend)
        (λ (x1, h1) d1.
          let b1 : Later h h1 = d1.later in
          Runs-then (Copied (PointsTo as_replica_spec (ReplicaSpecReads f p)) h1 v.replica_specs)
            (Copied (JobSpecReads f p) h v)
            ((copy_pointer as_replica_spec replica_spec (deep_copy_into_replica_spec f))
              t.replica_specs h1)
            _
            (PointsTo-Copies (ReplicaSpecReads f p) ReplicaSpecReads-Moves
              (deep_copy_into_replica_spec f) ReplicaSpecReads-Copies as_replica_spec replica_spec
              (λ x. refl) P h1 t.replica_specs v.replica_specs
              (Reading-later (PointsTo as_replica_spec (ReplicaSpecReads f p))
                (PointsTo-Moves (ReplicaSpecReads f p) ReplicaSpecReads-Moves as_replica_spec) P h
                h1 t.replica_specs v.replica_specs b1 r.replica_specs))
            (λ (x2, h2) d2.
              let b2 : Later h h2 = (Later-trans h h1 h2 b1 d2.later) in
              Runs-then
                (Copied (PointsTo as_termination_policy TerminationPolicyReads) h2
                  v.termination_policy)
                (Copied (JobSpecReads f p) h v)
                ((copy_pointer as_termination_policy termination_policy
                    deep_copy_into_termination_policy)
                  t.termination_policy h2)
                _
                (PointsTo-Copies TerminationPolicyReads TerminationPolicyReads-Moves
                  deep_copy_into_termination_policy TerminationPolicyReads-Copies
                  as_termination_policy termination_policy (λ x. refl) P h2 t.termination_policy
                  v.termination_policy
                  (Reading-later (PointsTo as_termination_policy TerminationPolicyReads)
                    (PointsTo-Moves TerminationPolicyReads TerminationPolicyReads-Moves
                      as_termination_policy)
                    P h h2 t.termination_policy v.termination_policy b2 r.termination_policy))
                (λ (x3, h3) d3.
                  let b3 : Later h h3 = (Later-trans h h2 h3 b2 d3.later) in
                  record {
                    later = b3;
                    reads = record {
                      runtime_id = r.runtime_id;
                      backend =
                          Copied-reads (PointsTo as_backend Same)
                            (PointsTo-Moves Same Same-Moves as_backend) h h h3 v.backend (x1, h1)
                            (Later-refl h) d1 (Later-trans h1 h2 h3 d2.later d3.later);
                      replica_specs =
                          Copied-reads (PointsTo as_replica_spec (ReplicaSpecReads f p))
                            (PointsTo-Moves (ReplicaSpecReads f p) ReplicaSpecReads-Moves
                              as_replica_spec)
                            h h1 h3 v.replica_specs (x2, h2) b1 d2 d3.later;
                      termination_policy =
                          Copied-reads (PointsTo as_termination_policy TerminationPolicyReads)
                            (PointsTo-Moves TerminationPolicyReads TerminationPolicyReads-Moves
                              as_termination_policy)
                            h h2 h3 v.termination_policy (x3, h3) b2 d3 (Later-refl h3);
                    };
                  })))
