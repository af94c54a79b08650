-- ===== src/Api/DeepCopy/Laws.antt =====
-- The `DeepCopyInto` of a status, a job and a list of jobs copy: what is written reads as the
-- receiver does, through new addresses.
use caffe2_operator.Prelude.{refl}
use caffe2_operator.Go.{Runs-then}
use caffe2_operator.Api.Types.{Caffe2JobStatus}
use caffe2_operator.Api.Memory.{
  Layout, StoredJobStatus, StoredJob, StoredJobList, replica_status, conditions, jobs, time,
  as_replica_status, as_conditions, as_jobs, as_time,
}
use caffe2_operator.Api.Memory.Copies.{
  PointsTo, Moves, Copies, Copied, Copied-reads, Reading-later, Later, Later-refl, Later-trans,
  PointsTo-Moves, PointsTo-Copies, copy_pointer, copy_each, flat,
}
use caffe2_operator.Api.DeepCopy.{
  Foreign, deep_copy_into_condition, deep_copy_into_job_spec, deep_copy_into_job_status,
  deep_copy_into_job, deep_copy_into_job_list,
}
use caffe2_operator.Api.DeepCopy.Reads.{
  TypedJob, TypedJobList, Same, SliceReads, Promises, ConditionReads, JobSpecReads, JobStatusReads,
  JobReads, JobListReads,
}
use caffe2_operator.Api.DeepCopy.Flat.{Same-Moves, flat-Same, SliceReads-Moves, SliceReads-Copies}
use caffe2_operator.Api.DeepCopy.Specs.{
  ConditionReads-Moves, ConditionReads-Copies, JobSpecReads-Moves, JobSpecReads-Copies,
}

module _ {l : Layout} (f : Foreign l) (p : Promises f) where
  pub JobStatusReads-Moves : Moves l StoredJobStatus Caffe2JobStatus (JobStatusReads f p)
  JobStatusReads-Moves P Q h h' t v wider agree r = record {
    conditions =
        SliceReads-Moves (ConditionReads f p) (ConditionReads-Moves f p) as_conditions P Q h h'
          t.conditions v.conditions wider agree r.conditions;
    replica_statuses =
        PointsTo-Moves Same Same-Moves as_replica_status P Q h h' t.replica_statuses
          v.replica_statuses wider agree r.replica_statuses;
    start_time =
        PointsTo-Moves p.MomentReads p.moment_moves as_time P Q h h' t.start_time v.start_time wider
          agree r.start_time;
    completion_time =
        PointsTo-Moves p.MomentReads p.moment_moves as_time P Q h h' t.completion_time
          v.completion_time wider agree r.completion_time;
    last_reconcile_time =
        PointsTo-Moves p.MomentReads p.moment_moves as_time P Q h h' t.last_reconcile_time
          v.last_reconcile_time wider agree r.last_reconcile_time;
  }

  pub JobStatusReads-Copies :
      Copies l StoredJobStatus Caffe2JobStatus (JobStatusReads f p) (deep_copy_into_job_status f)
  unfolding deep_copy_into_job_status
  JobStatusReads-Copies P h t v r =
      Runs-then (Copied (SliceReads as_conditions (ConditionReads f p)) h v.conditions)
        (Copied (JobStatusReads f p) h v)
        ((copy_pointer as_conditions conditions (copy_each (deep_copy_into_condition f)))
          t.conditions h)
        _
        (SliceReads-Copies (ConditionReads f p) (ConditionReads-Moves f p)
          (deep_copy_into_condition f) (ConditionReads-Copies f p) as_conditions conditions
          (λ x. refl) P h t.conditions v.conditions r.conditions)
        (λ (x1, h1) d1.
          let b1 : Later h h1 = d1.later in
          Runs-then (Copied (PointsTo as_replica_status Same) h1 v.replica_statuses)
            (Copied (JobStatusReads f p) h v)
            ((copy_pointer as_replica_status replica_status flat) t.replica_statuses h1) _
            (PointsTo-Copies Same Same-Moves flat flat-Same as_replica_status replica_status
              (λ x. refl) P h1 t.replica_statuses v.replica_statuses
              (Reading-later (PointsTo as_replica_status Same)
                (PointsTo-Moves Same Same-Moves as_replica_status) P h h1 t.replica_statuses
                v.replica_statuses b1 r.replica_statuses))
            (λ (x2, h2) d2.
              let b2 : Later h h2 = (Later-trans h h1 h2 b1 d2.later) in
              Runs-then (Copied (PointsTo as_time p.MomentReads) h2 v.start_time)
                (Copied (JobStatusReads f p) h v)
                ((copy_pointer as_time time f.copy_moment) t.start_time h2) _
                (PointsTo-Copies p.MomentReads p.moment_moves f.copy_moment p.moment_copies as_time
                  time (λ x. refl) P h2 t.start_time v.start_time
                  (Reading-later (PointsTo as_time p.MomentReads)
                    (PointsTo-Moves p.MomentReads p.moment_moves as_time) P h h2 t.start_time
                    v.start_time b2 r.start_time))
                (λ (x3, h3) d3.
                  let b3 : Later h h3 = (Later-trans h h2 h3 b2 d3.later) in
                  Runs-then (Copied (PointsTo as_time p.MomentReads) h3 v.completion_time)
                    (Copied (JobStatusReads f p) h v)
                    ((copy_pointer as_time time f.copy_moment) t.completion_time h3) _
                    (PointsTo-Copies p.MomentReads p.moment_moves f.copy_moment p.moment_copies
                      as_time time (λ x. refl) P h3 t.completion_time v.completion_time
                      (Reading-later (PointsTo as_time p.MomentReads)
                        (PointsTo-Moves p.MomentReads p.moment_moves as_time) P h h3
                        t.completion_time v.completion_time b3 r.completion_time))
                    (λ (x4, h4) d4.
                      let b4 : Later h h4 = (Later-trans h h3 h4 b3 d4.later) in
                      Runs-then (Copied (PointsTo as_time p.MomentReads) h4 v.last_reconcile_time)
                        (Copied (JobStatusReads f p) h v)
                        ((copy_pointer as_time time f.copy_moment) t.last_reconcile_time h4) _
                        (PointsTo-Copies p.MomentReads p.moment_moves f.copy_moment p.moment_copies
                          as_time time (λ x. refl) P h4 t.last_reconcile_time v.last_reconcile_time
                          (Reading-later (PointsTo as_time p.MomentReads)
                            (PointsTo-Moves p.MomentReads p.moment_moves as_time) P h h4
                            t.last_reconcile_time v.last_reconcile_time b4 r.last_reconcile_time))
                        (λ (x5, h5) d5.
                          let b5 : Later h h5 = (Later-trans h h4 h5 b4 d5.later) in
                          record {
                            later = b5;
                            reads = record {
                              conditions =
                                  Copied-reads (SliceReads as_conditions (ConditionReads f p))
                                    (SliceReads-Moves (ConditionReads f p)
                                      (ConditionReads-Moves f p) as_conditions)
                                    h h h5 v.conditions (x1, h1) (Later-refl h) d1
                                    (Later-trans h1 h2 h5 d2.later (
                                      Later-trans h2 h3 h5 d3.later
                                        (Later-trans h3 h4 h5 d4.later d5.later)));
                              replica_statuses =
                                  Copied-reads (PointsTo as_replica_status Same)
                                    (PointsTo-Moves Same Same-Moves as_replica_status) h h1 h5
                                    v.replica_statuses (x2, h2) b1 d2
                                    (Later-trans h2 h3 h5 d3.later
                                      (Later-trans h3 h4 h5 d4.later d5.later));
                              start_time =
                                  Copied-reads (PointsTo as_time p.MomentReads)
                                    (PointsTo-Moves p.MomentReads p.moment_moves as_time) h h2 h5
                                    v.start_time (x3, h3) b2 d3
                                    (Later-trans h3 h4 h5 d4.later d5.later);
                              completion_time =
                                  Copied-reads (PointsTo as_time p.MomentReads)
                                    (PointsTo-Moves p.MomentReads p.moment_moves as_time) h h3 h5
                                    v.completion_time (x4, h4) b3 d4 d5.later;
                              last_reconcile_time =
                                  Copied-reads (PointsTo as_time p.MomentReads)
                                    (PointsTo-Moves p.MomentReads p.moment_moves as_time) h h4 h5
                                    v.last_reconcile_time (x5, h5) b4 d5 (Later-refl h5);
                            };
                          })))))

  pub JobReads-Moves : Moves l (StoredJob l) TypedJob (JobReads f p)
  JobReads-Moves P Q h h' t v wider agree r = record {
    type_meta = r.type_meta;
    meta = p.meta_moves P Q h h' t.meta v.job.meta wider agree r.meta;
    spec = (JobSpecReads-Moves f p) P Q h h' t.spec v.job.spec wider agree r.spec;
    status = JobStatusReads-Moves P Q h h' t.status v.job.status wider agree r.status;
  }

  pub JobReads-Copies : Copies l (StoredJob l) TypedJob (JobReads f p) (deep_copy_into_job f)
  unfolding deep_copy_into_job
  JobReads-Copies P h t v r =
      Runs-then (Copied p.MetaReads h v.job.meta) (Copied (JobReads f p) h v) (f.copy_meta t.meta h)
        _ (p.meta_copies P h t.meta v.job.meta r.meta)
        (λ (x1, h1) d1.
          let b1 : Later h h1 = d1.later in
          Runs-then (Copied (JobSpecReads f p) h1 v.job.spec) (Copied (JobReads f p) h v)
            ((deep_copy_into_job_spec f) t.spec h1) _
            ((JobSpecReads-Copies f p) P h1 t.spec v.job.spec (
              Reading-later (JobSpecReads f p) (JobSpecReads-Moves f p) P h h1 t.spec v.job.spec b1
                r.spec))
            (λ (x2, h2) d2.
              let b2 : Later h h2 = (Later-trans h h1 h2 b1 d2.later) in
              Runs-then (Copied (JobStatusReads f p) h2 v.job.status) (Copied (JobReads f p) h v)
                ((deep_copy_into_job_status f) t.status h2) _
                (JobStatusReads-Copies P h2 t.status v.job.status (
                  Reading-later (JobStatusReads f p) JobStatusReads-Moves P h h2 t.status
                    v.job.status b2 r.status))
                (λ (x3, h3) d3.
                  let b3 : Later h h3 = (Later-trans h h2 h3 b2 d3.later) in
                  record {
                    later = b3;
                    reads = record {
                      type_meta = r.type_meta;
                      meta =
                          Copied-reads p.MetaReads p.meta_moves h h h3 v.job.meta (x1, h1)
                            (Later-refl h) d1 (Later-trans h1 h2 h3 d2.later d3.later);
                      spec =
                          Copied-reads (JobSpecReads f p) (JobSpecReads-Moves f p) h h1 h3
                            v.job.spec (x2, h2) b1 d2 d3.later;
                      status =
                          Copied-reads (JobStatusReads f p) JobStatusReads-Moves h h2 h3
                            v.job.status (x3, h3) b2 d3 (Later-refl h3);
                    };
                  })))

  pub JobListReads-Moves : Moves l (StoredJobList l) (TypedJobList l) (JobListReads f p)
  JobListReads-Moves P Q h h' t v wider agree r = record {
    type_meta = r.type_meta;
    list_meta = r.list_meta;
    items =
        SliceReads-Moves (JobReads f p) JobReads-Moves as_jobs P Q h h' t.items v.items wider agree
          r.items;
  }

  pub JobListReads-Copies :
      Copies l (StoredJobList l) (TypedJobList l) (JobListReads f p) (deep_copy_into_job_list f)
  unfolding deep_copy_into_job_list
  JobListReads-Copies P h t v r =
      Runs-then (Copied (SliceReads as_jobs (JobReads f p)) h v.items)
        (Copied (JobListReads f p) h v)
        ((copy_pointer as_jobs jobs (copy_each (deep_copy_into_job f))) t.items h) _
        (SliceReads-Copies (JobReads f p) JobReads-Moves (deep_copy_into_job f) JobReads-Copies
          as_jobs jobs (λ x. refl) P h t.items v.items r.items)
        (λ (x1, h1) d1.
          let b1 : Later h h1 = d1.later in
          record {
            later = b1;
            reads = record {
              type_meta = r.type_meta;
              list_meta = r.list_meta;
              items =
                  Copied-reads (SliceReads as_jobs (JobReads f p))
                    (SliceReads-Moves (JobReads f p) JobReads-Moves as_jobs) h h h1 v.items (x1, h1)
                    (Later-refl h) d1 (Later-refl h1);
            };
          })
