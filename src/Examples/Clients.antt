-- ===== src/Examples/Clients.antt =====
-- The theorems on the clients, applied to a server and a tracker that keep the jobs they are sent.
use caffe2_operator.Prelude.{
  false, ℕ, suc, String, Bool, true, not, Option, none, some, List, [], ◌∷◌, refl, if◌then◌else◌,
  arith,
}
use caffe2_operator.Prelude.Dict.{lookup, insert, remove, Dict}
use caffe2_operator.Prelude.Text.{◌<>◌, is_empty}
use caffe2_operator.Prelude.Decimal.{itoa}
use caffe2_operator.Go.{status, not_found, already_exists, Error, ok, err}
use caffe2_operator.Client.Fake.{
  list_action, watch_action, delete_collection_action, patch_subresource_action, Object, job_object,
  job_list_object, other_object, Action, get_action, create_action, update_action, delete_action,
  Testing, fake_caffe2_jobs,
}
use text.Mathlib.Text.{◌==◌}
use caffe2_operator.Kube.{no_meta}
use caffe2_operator.Api.Types.{Caffe2Job}
use caffe2_operator.Client.Interface.{
  Call, create_call, update_call, get_call, delete_call, Answer, Api, expected, Each, AgreesAll,
}
use caffe2_operator.Client.Typed.{Body, job_body, Rest, no_job, new_caffe2_jobs}
use caffe2_operator.Client.Fake.Laws.{
  Tracks, reaction, IsTyped, IsJob, tracked, OperationReturns, list_jobs, fake_operation-Returns,
  fake_caffe2_jobs-AgreesAll,
}
use caffe2_operator.Client.Typed.Laws.{
  View, blank, sent, Builds, Serves, HasPath, caffe2_jobs-AgreesAll,
}

-- A server's store: the jobs by name, and how many there have been, from which new ones get their UID.
abbrev Store : Type 0
Store = Dict Caffe2Job × ℕ

missing : String → Error
missing name = status not_found ("caffe2jobs.kubeflow.org \"" <> name <> "\" not found")

store : Api Store
store = record {
  create_job = λ job (jobs, n). elim (lookup job.meta.name jobs) [
    | some old ↦ (err (status already_exists (job.meta.name <> " already exists")), (jobs, n))
    | none ↦
        let new : Caffe2Job = record job { meta = record job.meta { uid = itoa n } } in
        (ok new, (insert job.meta.name new jobs, suc n))
  ];
  update_job = λ job (jobs, n). elim (lookup job.meta.name jobs) [
    | none ↦ (err (missing job.meta.name), (jobs, n))
    | some old ↦ (ok job, (insert job.meta.name job jobs, n))
  ];
  get_job = λ name options (jobs, n). elim (lookup name jobs) [
    | none ↦ (err (missing name), (jobs, n))
    | some job ↦ (ok job, (jobs, n))
  ];
  -- the options are ignored, and no job has finalizers
  delete_job = λ name options (jobs, n). elim (lookup name jobs) [
    | none ↦ (some (missing name), (jobs, n))
    | some job ↦ (none, (remove name jobs, n))
  ];
}

abbrev is_segment : String → Bool
is_segment s = not (is_empty s)

-- A builder that refuses an empty segment.
abbrev built : String → (View → View) → Option View → Option View
built segment set none = none
built segment set (some v) = if is_segment segment then some (set v) else none

abbrev always : (View → View) → Option View → Option View
always set none = none
always set (some v) = some (set v)

-- How the server reads a request.
read_body : String → Option Body → Option Call
read_body verb (some (job_body (some job))) =
    if verb == "POST" then some (create_call job) else some (update_call job)
read_body verb b = none

read_named : View → String → Option Call
read_named v name =
    if v.verb == "GET"
    then some (get_call name (record { resource_version = "" }))
    else if v.verb == "DELETE"
    then some (delete_call name none)
    else read_body v.verb v.body

read_view : View → Option Call
unfolding read_named read_body
read_view v = elim v.name [ some name ↦ read_named v name | none ↦ read_body v.verb v.body ]

abbrev served : Answer × Store → Caffe2Job → (Caffe2Job × Option Error) × Store
served (err e, jobs) into = ((into, some e), jobs)
served (ok none, jobs) into = ((into, none), jobs)
served (ok (some job), jobs) into = ((job, none), jobs)

serve : Option View → Caffe2Job → Store → (Caffe2Job × Option Error) × Store
unfolding read_view
serve none into jobs = ((into, none), jobs)
serve (some v) into jobs = elim (read_view v) [
  | none ↦ ((into, none), jobs)
  | some call ↦ served (expected store call jobs) into
]

abbrev rest : Rest
rest = record {
  Request = Option View;
  State = Store;
  Watch = Unit {0};
  verb = λ v. some (blank v);
  patch_verb = λ p. some (blank "PATCH");
  namespace = λ ns r. built ns (λ v. record v { namespace = some ns }) r;
  resource = λ name r. built name (λ v. record v { resource = some name }) r;
  name = λ name r. built name (λ v. record v { name = some name }) r;
  sub_resource = λ names r. r;
  versioned_params = λ p r. always (λ v. record v { params = some p }) r;
  body = λ b r. always (λ v. record v { body = sent b }) r;
  into_job = λ r into jobs. serve r into jobs;
  into_job_list = λ r into jobs. ((into, none), jobs);
  do_error = λ r jobs. let (a, jobs') = serve r no_job jobs in (a.1, jobs');
  start_watch = λ r jobs. (ok tt, jobs);
}

abbrev builds : Builds rest
builds = record {
  view = λ r. r;
  is_segment = is_segment;
  jobs_segment = refl;
  of_verb = λ v. refl;
  of_namespace = λ ns r v h free s. rw (h, s) refl;
  of_resource = λ name r v h free s. rw (h, s) refl;
  of_name = λ name r v h free s. rw (h, s) refl;
  of_params = λ p r v h free. rw h refl;
  of_body = λ b r v h free. rw h refl;
}

serves : Serves rest builds "default" store
unfolding serve expected store missing
serves = record {
  posted = λ job into r jobs h. rw h (ground arith);
  put = λ job into r jobs h. rw h (ground arith);
  got = λ name options into r jobs h. rw h (ground arith);
  deleted = λ name options r jobs h. rw h (ground arith);
}

a_job : Caffe2Job
a_job = record no_job { meta = record no_meta { name = "mnist" } }

abbrev a_session : List Call
a_session =
    get_call "mnist" (record { resource_version = "" })
    ∷ create_call a_job
    ∷ create_call a_job
    ∷ update_call a_job
    ∷ get_call "mnist" (record { resource_version = "" })
    ∷ delete_call "mnist" none
    ∷ []

a_session-HasPath : Each (HasPath rest builds "default") a_session
unfolding a_job
a_session-HasPath = (refl, (tt, (tt, (refl, (refl, (refl, tt))))))

caffe2_jobs-AgreesAll_example : AgreesAll (new_caffe2_jobs rest "default") store a_session ([], 0)
caffe2_jobs-AgreesAll_example =
    caffe2_jobs-AgreesAll rest builds "default" refl store serves a_session ([], 0)
      a_session-HasPath

-- How the tracker reads an action.
acted : Action → Option Call
acted (get_action resource ns name) = some (get_call name (record { resource_version = "" }))
acted (create_action resource ns (job_object (some job))) = some (create_call job)
acted (update_action resource ns (job_object (some job))) = some (update_call job)
acted (delete_action resource ns name) = some (delete_call name none)
acted _ = none

react : Action → Object → Store → (Option Object × Option Error) × Store
unfolding acted
react action default jobs = elim (acted action) [
  | none ↦ ((some default, none), jobs)
  | some call ↦ reaction (expected store call jobs)
]

abbrev tracker : Testing
tracker = record {
  State = Store;
  Watch = Unit {0};
  invokes = λ action default jobs. react action default jobs;
  invokes_watch = λ action jobs. (ok tt, jobs);
  label_selector = λ opts. none;
  everything = λ labels. true;
}

tracker-Tracks : Tracks tracker "default" store
unfolding react expected store missing
tracker-Tracks = record {
  created = λ job default jobs. refl;
  updated = λ job default jobs. refl;
  got = λ name options default jobs. ground arith;
  deleted = λ name options default jobs. ground arith;
}

fake_caffe2_jobs-AgreesAll_example :
    AgreesAll (fake_caffe2_jobs tracker "default") store a_session ([], 0)
fake_caffe2_jobs-AgreesAll_example =
    fake_caffe2_jobs-AgreesAll tracker "default" store tracker-Tracks a_session ([], 0)

tracked-IsJob : (a : Answer) → IsJob (tracked a).0
tracked-IsJob (err e) = tt
tracked-IsJob (ok none) = tt
tracked-IsJob (ok (some job)) = tt

tracker-IsTyped : IsTyped tracker
unfolding react acted
tracker-IsTyped (get_action resource ns name) default s h = tracked-IsJob _
tracker-IsTyped (create_action resource ns (job_object (some job))) default s h = tracked-IsJob _
tracker-IsTyped (create_action resource ns (job_object none)) default s h = h
tracker-IsTyped (create_action resource ns (job_list_object jobs)) default s h = h
tracker-IsTyped (create_action resource ns other_object) default s h = h
tracker-IsTyped (update_action resource ns (job_object (some job))) default s h = tracked-IsJob _
tracker-IsTyped (update_action resource ns (job_object none)) default s h = h
tracker-IsTyped (update_action resource ns (job_list_object jobs)) default s h = h
tracker-IsTyped (update_action resource ns other_object) default s h = h
tracker-IsTyped (list_action resource kind ns opts) default s h = h
tracker-IsTyped (watch_action resource ns opts) default s h = tt
tracker-IsTyped (delete_action resource ns name) default s h = tt
tracker-IsTyped (delete_collection_action resource ns opts) default s h = tt
tracker-IsTyped (patch_subresource_action resource ns name contents subresources) default s h = h

fake_operation-Returns_example :
    OperationReturns tracker "default"
      (list_jobs (record { label_selector = ""; field_selector = ""; watch = false }))
      ([], 0)
fake_operation-Returns_example =
    fake_operation-Returns tracker "default"
      (list_jobs (record { label_selector = ""; field_selector = ""; watch = false })) ([], 0)
      tracker-IsTyped
