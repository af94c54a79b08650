-- ===== src/Client/Fake/Laws.antt =====
-- What the fake client's calls amount to, on reactors that answer with objects of the right type, and
-- on the object tracker of k8s.io/client-go/testing.
use caffe2_operator.Prelude.{arith, ap, String, Option, none, some, List, [], ◌∷◌, ◌≡◌, refl}
use caffe2_operator.Client.Fake.{
  watch_action, delete_collection_action, patch_subresource_action, Object, job_object,
  job_list_object, other_object, Action, get_action, create_action, update_action, delete_action,
  list_action, Testing, as_job, answer_job, answer_list, get, list, watch, create, update, delete,
  delete_collection, patch, fake_caffe2_jobs, caffe2jobs_resource, caffe2jobs_kind,
}
use caffe2_operator.Go.{◌>>=◌, Error, ok, err, Outcome, returns, Runs}
use caffe2_operator.Kube.{GetOptions, ListOptions, DeleteOptions}
use caffe2_operator.Api.Types.{Caffe2Job}
use caffe2_operator.Client.Interface.{
  Api, Call, create_call, update_call, get_call, delete_call, Answer, answer_of, answer_of_error,
  expected, perform, Agrees, Each, perform_all-Agrees, AgreesAll,
}
use caffe2_operator.Client.Typed.{no_job, no_jobs}

abbrev pub IsJob : Option Object → Type 0
IsJob none = Unit
IsJob (some (job_object job)) = Unit
IsJob (some _) = ⊥

abbrev pub IsJobList : Option Object → Type 0
IsJobList none = Unit
IsJobList (some (job_list_object (some jobs))) = Unit
IsJobList (some _) = ⊥

-- No object, or one of the type that the action asks for; what a deletion returns does not matter.
abbrev pub OfType : Action → Option Object → Type 0
OfType (get_action resource ns name) o = IsJob o
OfType (list_action resource kind ns opts) o = IsJobList o
OfType (watch_action resource ns opts) o = Unit
OfType (create_action resource ns object) o = IsJob o
OfType (update_action resource ns object) o = IsJob o
OfType (delete_action resource ns name) o = Unit
OfType (delete_collection_action resource ns opts) o = Unit
OfType (patch_subresource_action resource ns name contents subresources) o = IsJob o

-- What the tracker's reaction returns where the store answers so: no object with an error.
abbrev pub tracked : Answer → Option Object × Option Error
tracked (err e) = (none, some e)
tracked (ok none) = (none, none)
tracked (ok (some job)) = (some (job_object (some job)), none)

abbrev pub reaction : {State : Type 0} → Answer × State → (Option Object × Option Error) × State
reaction (a, s) = (tracked a, s)

-- Any operation of the interface.
pub data Operation : Type 0 where
  create_job : Option Caffe2Job → Operation
  update_job : Option Caffe2Job → Operation
  get_job : String → GetOptions → Operation
  delete_job : String → Option DeleteOptions → Operation
  list_jobs : ListOptions → Operation
  watch_jobs : ListOptions → Operation
  delete_jobs : Option DeleteOptions → ListOptions → Operation
  patch_job : (name patch_type contents : String) → List String → Operation

module _ (t : Testing) where
  abbrev pub IsTyped : Type 0
  IsTyped =
      (action : Action) (default : Object) (s : t.State)
      → OfType action (some default)
      → OfType action (t.invokes action default s).0.0

  abbrev pub Returns : {A : Type 0} → Outcome A → Type 0
  Returns m = Runs (λ r. Unit {0}) m

  module _ (ns : String) where
    abbrev pub OperationReturns : Operation → t.State → Type 0
    OperationReturns (create_job job) s = Returns (create t ns job s)
    OperationReturns (update_job job) s = Returns (update t ns job s)
    OperationReturns (get_job name options) s = Returns (get t ns name options s)
    OperationReturns (delete_job name options) s = Returns (delete t ns name options s)
    OperationReturns (list_jobs opts) s = Returns (list t ns opts s)
    OperationReturns (watch_jobs opts) s = Returns (watch t ns opts s)
    OperationReturns (delete_jobs options opts) s = Returns (delete_collection t ns options opts s)
    OperationReturns (patch_job name patch_type contents subresources) s =
        Returns (patch t ns name patch_type contents subresources s)

  answer_job-Returns :
      (r : (Option Object × Option Error) × t.State) → IsJob r.0.0 → Returns (answer_job t r)
  unfolding answer_job
  answer_job-Returns ((none, e), s) h = tt
  answer_job-Returns ((some (job_object job), e), s) h = tt
  answer_job-Returns ((some (job_list_object jobs), e), s) h = h
  answer_job-Returns ((some other_object, e), s) h = h

  answer_list-Returns :
      (opts : ListOptions) (r : (Option Object × Option Error) × t.State)
      → IsJobList r.0.0
      → Returns (answer_list t opts r)
  unfolding answer_list
  answer_list-Returns opts ((none, e), s) h = tt
  answer_list-Returns opts ((some (job_list_object (some jobs)), e), s) h = tt
  answer_list-Returns opts ((some (job_list_object none), e), s) h = h
  answer_list-Returns opts ((some (job_object job), e), s) h = h
  answer_list-Returns opts ((some other_object, e), s) h = h

  -- If the reactors answer each action with nothing or with an object of the type that it asks for,
  -- where the default object is one, no operation of the fake client panics: every type assertion in
  -- it holds.
  pub fake_operation-Returns :
      (ns : String) (op : Operation) (s : t.State) → IsTyped → OperationReturns ns op s
  unfolding create update get delete list watch delete_collection patch
  fake_operation-Returns ns (create_job job) s h =
      answer_job-Returns _
        (h (create_action caffe2jobs_resource ns (job_object job)) (job_object (some no_job)) s tt)
  fake_operation-Returns ns (update_job job) s h =
      answer_job-Returns _
        (h (update_action caffe2jobs_resource ns (job_object job)) (job_object (some no_job)) s tt)
  fake_operation-Returns ns (get_job name options) s h =
      answer_job-Returns _
        (h (get_action caffe2jobs_resource ns name) (job_object (some no_job)) s tt)
  fake_operation-Returns ns (delete_job name options) s h = tt
  fake_operation-Returns ns (list_jobs opts) s h = answer_list-Returns opts _ (
      h (list_action caffe2jobs_resource caffe2jobs_kind ns opts) (job_list_object (some no_jobs)) s
        tt)
  fake_operation-Returns ns (watch_jobs opts) s h = tt
  fake_operation-Returns ns (delete_jobs options opts) s h = tt
  fake_operation-Returns ns (patch_job name patch_type contents subresources) s h =
      answer_job-Returns _ (
        h (patch_subresource_action caffe2jobs_resource ns name contents subresources)
          (job_object (some no_job)) s tt)

  -- The reaction of the object tracker: it performs the operation that the action names, with no object
  -- beside an error. Actions carry no options.
  pub record Tracks (ns : String) (api : Api t.State) : Type 0 where
    pub created :
        (job : Caffe2Job) (default : Object) (s : t.State)
        → t.invokes (create_action caffe2jobs_resource ns (job_object (some job))) default s
          ≡ reaction (expected api (create_call job) s)
    pub updated :
        (job : Caffe2Job) (default : Object) (s : t.State)
        → t.invokes (update_action caffe2jobs_resource ns (job_object (some job))) default s
          ≡ reaction (expected api (update_call job) s)
    pub got :
        (name : String) (options : GetOptions) (default : Object) (s : t.State)
        → t.invokes (get_action caffe2jobs_resource ns name) default s
          ≡ reaction (expected api (get_call name options) s)
    pub deleted :
        (name : String) (options : Option DeleteOptions) (default : Object) (s : t.State)
        → t.invokes (delete_action caffe2jobs_resource ns name) default s
          ≡ reaction (expected api (delete_call name options) s)

  module _ (ns : String) (api : Api t.State) (tracker : Tracks ns api) where
    -- The answer that the caller gets of a reaction.
    answer_job-reaction :
        (x : Answer × t.State)
        → (answer_job t (reaction x) >>= λ r. returns (answer_of r.0, r.1)) ≡ returns x
    unfolding answer_job as_job
    answer_job-reaction (err e, s) = refl
    answer_job-reaction (ok none, s) = refl
    answer_job-reaction (ok (some job), s) = refl

    deleted-reaction :
        (name : String) (options : Option DeleteOptions) (s : t.State)
        → (let (r, s') = reaction (expected api (delete_call name options) s) in
            (answer_of_error r.1, s'))
          ≡ expected api (delete_call name options) s
    unfolding expected
    deleted-reaction name options s = ground arith

    fake_call-Agrees : (call : Call) (s : t.State) → Agrees (fake_caffe2_jobs t ns) api call s
    unfolding perform create update get delete fake_caffe2_jobs
    fake_call-Agrees (create_call job) s = rw (tracker.created job) (answer_job-reaction _)
    fake_call-Agrees (update_call job) s = rw (tracker.updated job) (answer_job-reaction _)
    fake_call-Agrees (get_call name options) s =
        rw (tracker.got name options) (answer_job-reaction _)
    fake_call-Agrees (delete_call name options) s =
        rw (tracker.deleted name options) (ap returns (deleted-reaction name options s))

    -- On an object tracker that performs the operation that an action names: any sequence of calls
    -- Create, Update, Get and Delete of the fake client performs these operations, in order, on the jobs
    -- of its namespace, and returns their answers.
    pub fake_caffe2_jobs-AgreesAll :
        (calls : List Call) (s : t.State) → AgreesAll (fake_caffe2_jobs t ns) api calls s
    fake_caffe2_jobs-AgreesAll calls s =
        perform_all-Agrees (fake_caffe2_jobs t ns) api (λ c. Unit {0})
          (λ c s' u. fake_call-Agrees c s') calls s (each calls)
      where
        each : (cs : List Call) → Each (λ c. Unit {0}) cs
        each [] = tt
        each (c ∷ cs) = (tt, each cs)
