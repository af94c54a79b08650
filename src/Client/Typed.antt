-- ===== src/Client/Typed.antt =====
-- `caffe2Jobs` of pkg/client/clientset/versioned/typed/kubeflow/v1alpha1/caffe2job.go. The requests of
-- k8s.io/client-go/rest and the server are parameters.
pub mod Laws
use caffe2_operator.Prelude.{String, true, Option, none, some, List, [], ◌≡◌}
use caffe2_operator.Go.{Error, Result, Outcome, returns, ◌>>=◌, deref}
use caffe2_operator.Kube.{GetOptions, ListOptions, DeleteOptions, no_meta}
use caffe2_operator.Api.Types.{Caffe2Job, Caffe2JobList}
use caffe2_operator.Client.Interface.{Caffe2JobInterface, JobReply, ListReply}

pub data Params : Type 0 where
  get_options : GetOptions → Params
  list_options : ListOptions → Params

-- What `Body` is given; the pointers may be nil.
pub data Body : Type 0 where
  job_body : Option Caffe2Job → Body
  options_body : Option DeleteOptions → Body
  patch_body : String → Body

pub record Rest : Type 1 where
  pub Request : Type 0
  pub State : Type 0
  pub Watch : Type 0
  -- `Get()`, `Post()`, `Put()` and `Delete()`, and `Patch(pt)`
  pub verb : String → Request
  pub patch_verb : (patch_type : String) → Request
  pub namespace : String → Request → Request
  pub resource : String → Request → Request
  pub name : String → Request → Request
  pub sub_resource : List String → Request → Request
  pub versioned_params : Params → Request → Request
  pub body : Body → Request → Request
  -- `Do().Into(result)`: what `result` is then, and the error
  pub into_job : Request → Caffe2Job → State → (Caffe2Job × Option Error) × State
  pub into_job_list : Request → Caffe2JobList → State → (Caffe2JobList × Option Error) × State
  -- `Do().Error()`
  pub do_error : Request → State → Option Error × State
  pub start_watch : Request → State → Result Watch × State

-- `&v1alpha1.Caffe2Job{}` and `&v1alpha1.Caffe2JobList{}`
abbrev pub no_job : Caffe2Job
no_job = record {
  meta = no_meta;
  spec = record {
    runtime_id = "";
    backend = none;
    replica_specs = none;
    termination_policy = none;
  };
  status = record {
    conditions = [];
    replica_statuses = none;
    start_time = none;
    completion_time = none;
    last_reconcile_time = none;
  };
}

abbrev pub no_jobs : Caffe2JobList
no_jobs = record { items = [] }

module _ (c : Rest) where
  -- A result that was allocated is not nil.
  abbrev pub job_result : (Caffe2Job × Option Error) × c.State → Outcome (JobReply × c.State)
  job_result ((result, e), s) = returns ((some result, e), s)

  abbrev pub list_result : (Caffe2JobList × Option Error) × c.State → Outcome (ListReply × c.State)
  list_result ((result, e), s) = returns ((some result, e), s)

  module _ (ns : String) where
    -- The part that all requests share.
    unfoldable pub to_jobs : c.Request → c.Request
    to_jobs r = c.resource "caffe2jobs" (c.namespace ns r)

    unfoldable pub get : String → GetOptions → c.State → Outcome (JobReply × c.State)
    unfolding to_jobs
    get name options s = job_result (
        c.into_job (c.versioned_params (get_options options) (c.name name (to_jobs (c.verb "GET"))))
          no_job s)

    unfoldable pub list : ListOptions → c.State → Outcome (ListReply × c.State)
    unfolding to_jobs
    list opts s = list_result (
        c.into_job_list (c.versioned_params (list_options opts) (to_jobs (c.verb "GET"))) no_jobs s)

    unfoldable pub watch : ListOptions → c.State → Outcome (Result c.Watch × c.State)
    unfolding to_jobs
    watch opts s = returns (
        c.start_watch
          (c.versioned_params (list_options (record opts { watch = true }))
            (to_jobs (c.verb "GET")))
          s)

    unfoldable pub create : Option Caffe2Job → c.State → Outcome (JobReply × c.State)
    unfolding to_jobs
    create caffe2_job s =
        job_result (c.into_job (c.body (job_body caffe2_job) (to_jobs (c.verb "POST"))) no_job s)

    unfoldable pub update : Option Caffe2Job → c.State → Outcome (JobReply × c.State)
    unfolding to_jobs
    update caffe2_job s = deref caffe2_job >>= λ job. job_result (
        c.into_job (c.body (job_body caffe2_job) (c.name job.meta.name (to_jobs (c.verb "PUT"))))
          no_job s)

    unfoldable pub delete :
        String → Option DeleteOptions → c.State → Outcome (Option Error × c.State)
    unfolding to_jobs
    delete name options s =
        returns
          (c.do_error (c.body (options_body options) (c.name name (to_jobs (c.verb "DELETE")))) s)

    unfoldable pub delete_collection :
        Option DeleteOptions → ListOptions → c.State → Outcome (Option Error × c.State)
    unfolding to_jobs
    delete_collection options opts s = returns (
        c.do_error
          (c.body (options_body options)
            (c.versioned_params (list_options opts) (to_jobs (c.verb "DELETE"))))
          s)

    unfoldable pub patch :
        (name patch_type contents : String) → List String → c.State → Outcome (JobReply × c.State)
    unfolding to_jobs
    patch name patch_type contents subresources s = job_result (
        c.into_job
          (c.body (patch_body contents)
            (c.name name (c.sub_resource subresources (to_jobs (c.patch_verb patch_type)))))
          no_job s)

    -- `newCaffe2Jobs`
    unfoldable pub new_caffe2_jobs : Caffe2JobInterface c.State c.Watch
    new_caffe2_jobs = record {
      create = create;
      update = update;
      delete = delete;
      delete_collection = delete_collection;
      get = get;
      list = list;
      watch = watch;
      patch = patch;
    }
