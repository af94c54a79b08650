-- ===== src/Examples/Clientsets.antt =====
-- The theorems on clientsets and informers, applied.
use caffe2_operator.Prelude.{ℕ, String, Bool, true, Option, none, List, [], ◌∷◌, if◌then◌else◌}
use caffe2_operator.Prelude.Int.{ℤ, pos}
use caffe2_operator.Go.{message, ok, err, returns, panics, panicked}
use caffe2_operator.Controller.RefManager.{is_some}
use caffe2_operator.Client.Clientset.{ClientGo, ClientConfig, new_for_config}
use caffe2_operator.Client.Clientset.Laws.{Limited, Made, new_for_config-Made}
use caffe2_operator.Client.Factory.{new_shared_informer_factory}
use caffe2_operator.Client.Fake.{Testing, fake_caffe2_jobs}
use caffe2_operator.Client.Informers.{
  Caches, Access, ask_lister, ask_resource, start_informers, access_all,
}
use caffe2_operator.Client.Informers.Laws.{Shares, access_all-Shares}

-- A REST client can be had with any user agent, and a discovery client with a rate limiter alone.
abbrev client_go : ClientGo
client_go = record {
  RateLimiter = ℤ;
  Qps = Bool;
  is_positive = λ q. q;
  Serializer = Unit {0};
  Others = Unit {0};
  DiscoveryClient = Option ℤ;
  RestClient = String;
  new_rate_limiter = λ q burst. burst;
  codecs = tt;
  default_user_agent = "caffe2-operator";
  rest_client_for = λ c. ok c.user_agent;
  discovery_for_config =
      λ c. if is_some c.rate_limiter then ok c.rate_limiter else err (message "no rate limiter");
  discovery_for_config_or_die = λ c.
      if is_some c.rate_limiter
      then returns c.rate_limiter
      else panics (panicked (message "no rate limiter"));
  discovery_client = λ c. none;
}

abbrev config : ClientConfig client_go
config = record {
  rate_limiter = none;
  qps = true;
  burst = pos 10;
  group_version = none;
  api_path = "";
  negotiated_serializer = none;
  user_agent = "";
  others = tt;
}

new_for_config-Made_example :
    (limited : ClientConfig client_go) × Limited client_go config limited
    × Made client_go limited (new_for_config client_go config)
new_for_config-Made_example = new_for_config-Made client_go config

-- Reactors that answer nothing.
abbrev silent : Testing
silent = record {
  State = Unit {0};
  Watch = Unit {0};
  invokes = λ action default s. ((none, none), s);
  invokes_watch = λ action s. (ok tt, s);
  label_selector = λ opts. none;
  everything = λ labels. true;
}

abbrev caches : Caches (Unit {0}) (Unit {0})
caches = record {
  Informer = String × ℕ;
  Indexer = String;
  Indexers = Unit {0};
  new_shared_index_informer = λ list_watch type resync indexers. (type, resync);
  get_indexer = λ informer. informer.0;
  by_namespace = tt;
  resource_text = λ r. r.resource;
}

abbrev accesses : List Access
accesses =
    ask_lister
    ∷ start_informers
    ∷ ask_resource (record { group = ""; version = "v1"; resource = "pods" })
    ∷ []

access_all-Shares_example :
    Shares
      (Unit {0})
      (Unit {0})
      caches
      (λ ns. fake_caffe2_jobs silent ns)
      30
      (access_all
        (Unit {0})
        (Unit {0})
        caches
        (λ ns. fake_caffe2_jobs silent ns)
        30
        accesses
        (new_shared_informer_factory (String × ℕ)))
access_all-Shares_example =
    access_all-Shares (Unit {0}) (Unit {0}) caches (λ ns. fake_caffe2_jobs silent ns) 30 accesses
