-- ===== src/Client/Fake.antt =====
-- `FakeCaffe2Jobs` of pkg/client/clientset/versioned/typed/kubeflow/v1alpha1/fake/fake_caffe2job.go. The
-- reactors of k8s.io/client-go/testing, which answer the actions, are a parameter.
pub mod Laws
use caffe2_operator.Prelude.{String, Bool, Option, none, some, List, [], ◌∷◌, if◌then◌else◌, keep}
use caffe2_operator.Go.{Error, Result, Outcome, returns, panics, ◌>>=◌, deref, wrong_type}
use caffe2_operator.Kube.{Labels, GetOptions, ListOptions, DeleteOptions}
use caffe2_operator.Api.Types.{Caffe2Job, Caffe2JobList}
use caffe2_operator.Client.Interface.{Caffe2JobInterface, JobReply, ListReply}
use caffe2_operator.Client.Typed.{no_job, no_jobs}

-- A `runtime.Object` by its type; the pointer in it may be nil.
pub data Object : Type 0 where
  job_object : Option Caffe2Job → Object
  job_list_object : Option Caffe2JobList → Object
  other_object : Object

-- `schema.GroupVersionResource` and `schema.GroupVersionKind`
pub record Group (Subject : Type 0) : Type 0 where
  pub group : String
  pub version : String
  pub subject : Subject

abbrev pub caffe2jobs_resource : Group String
caffe2jobs_resource = record {
  group = "kubeflow.org";
  version = "v1alpha1";
  subject = "caffe2jobs";
}

abbrev pub caffe2jobs_kind : Group String
caffe2jobs_kind = record { group = "kubeflow.org"; version = "v1alpha1"; subject = "Caffe2Job" }

-- The actions that the fake client makes, with their resource and namespace.
pub data Action : Type 0 where
  get_action : Group String → String → (name : String) → Action
  list_action : Group String → Group String → String → ListOptions → Action
  watch_action : Group String → String → ListOptions → Action
  create_action : Group String → String → Object → Action
  update_action : Group String → String → Object → Action
  delete_action : Group String → String → (name : String) → Action
  delete_collection_action : Group String → String → ListOptions → Action
  patch_subresource_action : Group String → String → (name contents : String) → List String → Action

pub record Testing : Type 1 where
  pub State : Type 0
  pub Watch : Type 0
  -- `Invokes(action, defaultReturnObj)`
  pub invokes : Action → Object → State → (Option Object × Option Error) × State
  pub invokes_watch : Action → State → Result Watch × State
  -- the label selector of `ExtractFromListOptions`, and `labels.Everything`
  pub label_selector : ListOptions → Option (Labels → Bool)
  pub everything : Labels → Bool

-- `return obj.(*v1alpha1.Caffe2Job), err`, after the test for nil.
unfoldable pub as_job : Option Object × Option Error → Outcome JobReply
as_job (none, e) = returns (none, e)
as_job (some (job_object job), e) = returns (job, e)
as_job (some (job_list_object jobs), e) = panics wrong_type
as_job (some other_object, e) = panics wrong_type

module _ (t : Testing) where
  unfoldable pub answer_job :
      (Option Object × Option Error) × t.State → Outcome (JobReply × t.State)
  unfolding as_job
  answer_job (r, s) = as_job r >>= λ reply. returns (reply, s)

  -- `label == nil`
  unfoldable pub selects : ListOptions → Labels → Bool
  selects opts = elim (t.label_selector opts) [ none ↦ t.everything | some label ↦ label ]

  -- The items of `obj.(*v1alpha1.Caffe2JobList)` that the label matches.
  unfoldable pub as_list : ListOptions → Option Object × Option Error → Outcome ListReply
  unfolding selects
  as_list opts (none, e) = returns (none, e)
  as_list opts (some (job_list_object jobs), e) = deref jobs >>= λ (l : Caffe2JobList).
      returns (some (record { items = keep (λ job. selects opts job.meta.labels) l.items }), e)
  as_list opts (some (job_object job), e) = panics wrong_type
  as_list opts (some other_object, e) = panics wrong_type

  unfoldable pub answer_list :
      ListOptions → (Option Object × Option Error) × t.State → Outcome (ListReply × t.State)
  unfolding as_list
  answer_list opts (r, s) = as_list opts r >>= λ reply. returns (reply, s)

  module _ (ns : String) where
    unfoldable pub get : String → GetOptions → t.State → Outcome (JobReply × t.State)
    unfolding answer_job
    get name options s =
        answer_job (t.invokes (get_action caffe2jobs_resource ns name) (job_object (some no_job)) s)

    unfoldable pub list : ListOptions → t.State → Outcome (ListReply × t.State)
    unfolding answer_list
    list opts s = answer_list opts (
        t.invokes (list_action caffe2jobs_resource caffe2jobs_kind ns opts)
          (job_list_object (some no_jobs)) s)

    unfoldable pub watch : ListOptions → t.State → Outcome (Result t.Watch × t.State)
    watch opts s = returns (t.invokes_watch (watch_action caffe2jobs_resource ns opts) s)

    unfoldable pub create : Option Caffe2Job → t.State → Outcome (JobReply × t.State)
    unfolding answer_job
    create caffe2_job s = answer_job (
        t.invokes (create_action caffe2jobs_resource ns (job_object caffe2_job))
          (job_object (some no_job)) s)

    unfoldable pub update : Option Caffe2Job → t.State → Outcome (JobReply × t.State)
    unfolding answer_job
    update caffe2_job s = answer_job (
        t.invokes (update_action caffe2jobs_resource ns (job_object caffe2_job))
          (job_object (some no_job)) s)

    unfoldable pub delete :
        String → Option DeleteOptions → t.State → Outcome (Option Error × t.State)
    delete name options s =
        let (r, s') =
          t.invokes (delete_action caffe2jobs_resource ns name) (job_object (some no_job)) s in
        returns (r.1, s')

    unfoldable pub delete_collection :
        Option DeleteOptions → ListOptions → t.State → Outcome (Option Error × t.State)
    delete_collection options opts s =
        let (r, s') =
          t.invokes (delete_collection_action caffe2jobs_resource ns opts)
            (job_list_object (some no_jobs)) s in
        returns (r.1, s')

    -- The type of the patch does not reach the action.
    unfoldable pub patch :
        (name patch_type contents : String) → List String → t.State → Outcome (JobReply × t.State)
    unfolding answer_job
    patch name patch_type contents subresources s = answer_job (
        t.invokes (patch_subresource_action caffe2jobs_resource ns name contents subresources)
          (job_object (some no_job)) s)

    -- `&FakeCaffe2Jobs{c, namespace}`
    unfoldable pub fake_caffe2_jobs : Caffe2JobInterface t.State t.Watch
    fake_caffe2_jobs = record {
      create = create;
      update = update;
      delete = delete;
      delete_collection = delete_collection;
      get = get;
      list = list;
      watch = watch;
      patch = patch;
    }
