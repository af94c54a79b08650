-- ===== src/Client/Typed/Laws.antt =====
-- What the typed client's calls on single jobs amount to, where the requests are built and served as
-- k8s.io/client-go/rest and the API server document.
use caffe2_operator.Prelude.{String, Bool, true, ap, Option, none, some, List, ◌≡◌, refl}
use caffe2_operator.Go.{returns}
use caffe2_operator.Kube.{GetOptions, DeleteOptions}
use caffe2_operator.Api.Types.{Caffe2Job}
use caffe2_operator.Client.Interface.{
  Api, Call, create_call, update_call, get_call, delete_call, answer_of, answer_of_error, expected,
  perform, Agrees, Each, perform_all-Agrees, AgreesAll,
}
use caffe2_operator.Client.Typed.{
  Params, get_options, Body, job_body, options_body, Rest, create, update, get, delete, to_jobs,
  new_caffe2_jobs,
}

-- What a request says, for a request in which nothing is refused.
pub record View : Type 0 where
  pub verb : String
  pub namespace : Option String
  pub resource : Option String
  pub name : Option String
  pub params : Option Params
  pub body : Option Body

abbrev pub blank : String → View
blank verb = record {
  verb = verb;
  namespace = none;
  resource = none;
  name = none;
  params = none;
  body = none;
}

-- A nil pointer is no body.
abbrev pub sent : Body → Option Body
sent (job_body none) = none
sent (options_body none) = none
sent b = some b

module _ (c : Rest) where
  -- Each builder sets its part of a request, if it was not set, and refuses text that cannot be a
  -- segment of a path.
  pub record Builds : Type 1 where
    pub view : c.Request → Option View
    pub is_segment : String → Bool
    pub jobs_segment : is_segment "caffe2jobs" ≡ true
    pub of_verb : (v : String) → view (c.verb v) ≡ some (blank v)
    pub of_namespace :
        (ns : String) (r : c.Request) (v : View)
        → view r ≡ some v
        → v.namespace ≡ none
        → is_segment ns ≡ true
        → view (c.namespace ns r) ≡ some (record v { namespace = some ns })
    pub of_resource :
        (name : String) (r : c.Request) (v : View)
        → view r ≡ some v
        → v.resource ≡ none
        → is_segment name ≡ true
        → view (c.resource name r) ≡ some (record v { resource = some name })
    pub of_name :
        (name : String) (r : c.Request) (v : View)
        → view r ≡ some v
        → v.name ≡ none
        → is_segment name ≡ true
        → view (c.name name r) ≡ some (record v { name = some name })
    pub of_params :
        (p : Params) (r : c.Request) (v : View)
        → view r ≡ some v
        → v.params ≡ none
        → view (c.versioned_params p r) ≡ some (record v { params = some p })
    pub of_body :
        (b : Body) (r : c.Request) (v : View)
        → view r ≡ some v
        → v.body ≡ none
        → view (c.body b r) ≡ some (record v { body = sent b })

  module _ (b : Builds) (ns : String) where
    abbrev pub on_jobs : String → View
    on_jobs verb = record (blank verb) { namespace = some ns; resource = some "caffe2jobs" }

    -- The server performs the operation that the verb and the path of a request name, with its
    -- parameters and its body (the resource URIs of the Kubernetes API); what the operations do is up to
    -- it.
    pub record Serves (api : Api c.State) : Type 0 where
      pub posted :
          (job into : Caffe2Job) (r : c.Request) (s : c.State)
          → b.view r ≡ some (record (on_jobs "POST") { body = some (job_body (some job)) })
          → let ((result, e), s') = c.into_job r into s in
            (answer_of (some result, e), s') ≡ expected api (create_call job) s
      -- The name of the path must be that of the job.
      pub put :
          (job into : Caffe2Job) (r : c.Request) (s : c.State)
          → b.view r
            ≡ some (record (on_jobs "PUT") {
              name = some job.meta.name;
              body = some (job_body (some job));
            })
          → let ((result, e), s') = c.into_job r into s in
            (answer_of (some result, e), s') ≡ expected api (update_call job) s
      pub got :
          (name : String) (options : GetOptions) (into : Caffe2Job) (r : c.Request) (s : c.State)
          → b.view r
            ≡ some
                (record (on_jobs "GET") { name = some name; params = some (get_options options) })
          → let ((result, e), s') = c.into_job r into s in
            (answer_of (some result, e), s') ≡ expected api (get_call name options) s
      pub deleted :
          (name : String) (options : Option DeleteOptions) (r : c.Request) (s : c.State)
          → b.view r
            ≡ some
                (record (on_jobs "DELETE") { name = some name; body = sent (options_body options) })
          → let (e, s') = c.do_error r s in
            (answer_of_error e, s') ≡ expected api (delete_call name options) s

    -- The names that the path of the call needs.
    abbrev pub HasPath : Call → Type 0
    HasPath (create_call job) = Unit
    HasPath (update_call job) = b.is_segment job.meta.name ≡ true
    HasPath (get_call name options) = b.is_segment name ≡ true
    HasPath (delete_call name options) = b.is_segment name ≡ true

    module _ (ns_segment : b.is_segment ns ≡ true) where
      to_jobs_view : (verb : String) → b.view (to_jobs c ns (c.verb verb)) ≡ some (on_jobs verb)
      unfolding to_jobs
      to_jobs_view verb =
          b.of_resource "caffe2jobs" _ _
            (b.of_namespace ns _ (blank verb) (b.of_verb verb) refl ns_segment) refl b.jobs_segment

      named_view :
          (verb name : String)
          → b.is_segment name ≡ true
          → b.view (c.name name (to_jobs c ns (c.verb verb)))
            ≡ some (record (on_jobs verb) { name = some name })
      named_view verb name h = b.of_name name _ (on_jobs verb) (to_jobs_view verb) refl h

      module _ (api : Api c.State) (server : Serves api) where
        typed_call-Agrees :
            (call : Call) (s : c.State) → HasPath call → Agrees (new_caffe2_jobs c ns) api call s
        unfolding perform create update get delete new_caffe2_jobs
        typed_call-Agrees (create_call job) s h =
            ap returns
              (server.posted job _ _ s (b.of_body _ _ (on_jobs "POST") (to_jobs_view "POST") refl))
        typed_call-Agrees (update_call job) s h =
            ap returns
              (server.put job _ _ s (b.of_body _ _ _ (named_view "PUT" job.meta.name h) refl))
        typed_call-Agrees (get_call name options) s h =
            ap returns
              (server.got name options _ _ s (b.of_params _ _ _ (named_view "GET" name h) refl))
        typed_call-Agrees (delete_call name options) s h =
            ap returns
              (server.deleted name options _ s (b.of_body _ _ _ (named_view "DELETE" name h) refl))

        -- Where requests are built as documented, and the server performs the operation that the verb
        -- and the path of a request name: any sequence of calls Create, Update, Get and Delete of the
        -- typed client whose names can stand in a path performs these operations of the API, in order,
        -- on the jobs of its namespace, and returns their answers.
        pub caffe2_jobs-AgreesAll :
            (calls : List Call) (s : c.State)
            → Each HasPath calls
            → AgreesAll (new_caffe2_jobs c ns) api calls s
        caffe2_jobs-AgreesAll calls s h =
            perform_all-Agrees (new_caffe2_jobs c ns) api HasPath typed_call-Agrees calls s h
