-- ===== src/Client/Interface.antt =====
-- `Caffe2JobInterface` of pkg/client/clientset/versioned/typed/kubeflow/v1alpha1/caffe2job.go, which the
-- typed client and the fake one implement, and the API operations that its users expect behind it.
use caffe2_operator.Prelude.{String, Option, none, some, List, [], ◌∷◌, ◌≡◌, refl}
use caffe2_operator.Go.{Error, Result, ok, err, Outcome, returns, ◌>>=◌}
use caffe2_operator.Kube.{GetOptions, ListOptions, DeleteOptions}
use caffe2_operator.Api.Types.{Caffe2Job, Caffe2JobList}

-- `(*Caffe2Job, error)` and `(*Caffe2JobList, error)`: Go can return both or none.
abbrev pub JobReply : Type 0
JobReply = Option Caffe2Job × Option Error

abbrev pub ListReply : Type 0
ListReply = Option Caffe2JobList × Option Error

-- The client of one namespace, on what it changes by its calls.
pub record Caffe2JobInterface (State Watch : Type 0) : Type 0 where
  pub create : Option Caffe2Job → State → Outcome (JobReply × State)
  pub update : Option Caffe2Job → State → Outcome (JobReply × State)
  pub delete : String → Option DeleteOptions → State → Outcome (Option Error × State)
  pub delete_collection :
      Option DeleteOptions → ListOptions → State → Outcome (Option Error × State)
  pub get : String → GetOptions → State → Outcome (JobReply × State)
  pub list : ListOptions → State → Outcome (ListReply × State)
  pub watch : ListOptions → State → Outcome (Result Watch × State)
  pub patch : (name patch_type contents : String) → List String → State → Outcome (JobReply × State)

-- The calls on single jobs.
pub data Call : Type 0 where
  create_call : Caffe2Job → Call
  update_call : Caffe2Job → Call
  get_call : String → GetOptions → Call
  delete_call : String → Option DeleteOptions → Call

-- What a caller learns: the error, or else the job, if the call returns one.
abbrev pub Answer : Type 0
Answer = Result (Option Caffe2Job)

abbrev pub answer_of : JobReply → Answer
answer_of (job, some e) = err e
answer_of (job, none) = ok job

abbrev pub answer_of_error : Option Error → Answer
answer_of_error (some e) = err e
answer_of_error none = ok none

-- The operations of the API on the jobs of a namespace, on the state of whatever serves them: any store
-- with its admission, its conflicts and its delayed deletions.
pub record Api (State : Type 0) : Type 0 where
  pub create_job : Caffe2Job → State → Result Caffe2Job × State
  pub update_job : Caffe2Job → State → Result Caffe2Job × State
  pub get_job : String → GetOptions → State → Result Caffe2Job × State
  pub delete_job : String → Option DeleteOptions → State → Option Error × State

abbrev pub job_answer : Result Caffe2Job → Answer
job_answer (err e) = err e
job_answer (ok job) = ok (some job)

module _ {State : Type 0} (api : Api State) where
  -- The operation that a call is for.
  unfoldable pub expected : Call → State → Answer × State
  expected (create_call job) s = let (r, s') = api.create_job job s in (job_answer r, s')
  expected (update_call job) s = let (r, s') = api.update_job job s in (job_answer r, s')
  expected (get_call name options) s =
      let (r, s') = api.get_job name options s in (job_answer r, s')
  expected (delete_call name options) s =
      let (e, s') = api.delete_job name options s in (answer_of_error e, s')

  unfoldable pub expected_all : List Call → State → List Answer × State
  expected_all [] s = ([], s)
  expected_all (c ∷ cs) s =
      let (a, s') = expected c s in let (rest, last) = expected_all cs s' in (a ∷ rest, last)

abbrev pub Each : (Call → Type 0) → List Call → Type 0
Each P [] = Unit
Each P (c ∷ cs) = P c × Each P cs

module _ {State Watch : Type 0} (client : Caffe2JobInterface State Watch) where
  unfoldable pub perform : Call → State → Outcome (Answer × State)
  perform (create_call job) s = client.create (some job) s >>= λ r. returns (answer_of r.0, r.1)
  perform (update_call job) s = client.update (some job) s >>= λ r. returns (answer_of r.0, r.1)
  perform (get_call name options) s =
      client.get name options s >>= λ r. returns (answer_of r.0, r.1)
  perform (delete_call name options) s =
      client.delete name options s >>= λ r. returns (answer_of_error r.0, r.1)

  unfoldable pub perform_all : List Call → State → Outcome (List Answer × State)
  perform_all [] s = returns ([], s)
  perform_all (c ∷ cs) s =
      perform c s >>= λ r. perform_all cs r.1 >>= λ rest. returns (r.0 ∷ rest.0, rest.1)

  module _ (api : Api State) where
    -- The call returns what the operation answers, and leaves what it leaves.
    abbrev pub Agrees : Call → State → Type 0
    Agrees c s = perform c s ≡ returns (expected api c s)

    -- The same of a sequence of calls.
    abbrev pub AgreesAll : List Call → State → Type 0
    AgreesAll cs s = perform_all cs s ≡ returns (expected_all api cs s)

    pub perform_all-Agrees :
        (P : Call → Type 0)
        → ((c : Call) (s : State) → P c → Agrees c s)
        → (cs : List Call) (s : State) → Each P cs
        → AgreesAll cs s
    unfolding perform_all expected_all
    perform_all-Agrees P step [] s ps = refl
    perform_all-Agrees P step (c ∷ cs) s (p, ps) =
        rw (step c s p) (rw (perform_all-Agrees P step cs (expected api c s).1 ps) refl)
