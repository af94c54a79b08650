-- ===== src/Client/Informers.antt =====
-- The informer of the jobs: pkg/client/informers/externalversions/kubeflow/v1alpha1/caffe2job.go, and
-- `ForResource` of generic.go. The caches of k8s.io/client-go/tools/cache are a parameter.
pub mod Laws
use caffe2_operator.Prelude.{ℕ, String, Bool, ◌&&◌, List, [], ◌∷◌, ◌≡◌, if◌then◌else◌}
use caffe2_operator.Prelude.Text.{◌<>◌}
use text.Mathlib.Text.{◌==◌}
use caffe2_operator.Go.{Error, message, Result, ok, err, Outcome}
use caffe2_operator.Kube.{ListOptions}
use caffe2_operator.Api.Types.{Caffe2Job, group_name, group_version}
use caffe2_operator.Client.Interface.{Caffe2JobInterface, ListReply}
use caffe2_operator.Client.Factory.{SharedInformerFactory, informer_for, start, Request}

-- `schema.GroupVersionResource` and `schema.GroupResource`
pub record GroupVersionResource : Type 0 where
  pub group : String
  pub version : String
  pub resource : String

pub record GroupResource : Type 0 where
  pub group : String
  pub resource : String

-- What the users of the factory do.
pub data Access : Type 0 where
  ask_informer ask_lister start_informers : Access
  ask_resource : GroupVersionResource → Access

abbrev pub is_caffe2jobs : GroupVersionResource → Bool
is_caffe2jobs r =
    r.group == group_name && (r.version == group_version && r.resource == "caffe2jobs")

module _ (State Watch : Type 0) where
  pub record ListWatch : Type 0 where
    pub list_func : ListOptions → State → Outcome (ListReply × State)
    pub watch_func : ListOptions → State → Outcome (Result Watch × State)

  pub record Caches : Type 1 where
    pub Informer : Type 0
    pub Indexer : Type 0
    pub Indexers : Type 0
    -- `cache.NewSharedIndexInformer`, with the type of its objects and the resync period
    pub new_shared_index_informer : ListWatch → String → ℕ → Indexers → Informer
    pub get_indexer : Informer → Indexer
    -- `cache.Indexers{cache.NamespaceIndex: cache.MetaNamespaceIndexFunc}`
    pub by_namespace : Indexers
    -- `%v` of a resource
    pub resource_text : GroupVersionResource → String

  module _ (k : Caches) where
    pub record GenericInformer : Type 0 where
      pub informer : k.Informer
      pub resource : GroupResource

    -- `GenericInformer.Lister`, as the indexer and the resource that it reads
    unfoldable pub generic_lister : GenericInformer → k.Indexer × GroupResource
    generic_lister g = (k.get_indexer g.informer, g.resource)

  module _ (k : Caches) (client : (namespace : String) → Caffe2JobInterface State Watch) where
    -- `NewCaffe2JobInformer`
    unfoldable pub new_caffe2_job_informer :
        (namespace : String) → (resync_period : ℕ) → k.Indexers → k.Informer
    new_caffe2_job_informer namespace resync_period indexers =
        k.new_shared_index_informer
          (record { list_func = (client namespace).list; watch_func = (client namespace).watch })
          "Caffe2Job" resync_period indexers

    -- `defaultCaffe2JobInformer`: `v1.NamespaceAll` is the empty namespace.
    unfoldable pub default_caffe2_job_informer : (resync_period : ℕ) → k.Informer
    unfolding new_caffe2_job_informer
    default_caffe2_job_informer resync_period =
        new_caffe2_job_informer "" resync_period k.by_namespace

    -- A `Caffe2JobInformer` of the factory, whose resync period is `resync`.
    module _ (resync : ℕ) where
      -- `Informer`
      unfoldable pub informer :
          SharedInformerFactory k.Informer → k.Informer × SharedInformerFactory k.Informer
      unfolding default_caffe2_job_informer
      informer f = informer_for k.Informer "Caffe2Job" (default_caffe2_job_informer resync) f

      -- `Lister`, as the indexer that it reads
      unfoldable pub lister :
          SharedInformerFactory k.Informer → k.Indexer × SharedInformerFactory k.Informer
      unfolding informer
      lister f = let (i, f') = informer f in (k.get_indexer i, f')

      -- `ForResource`
      unfoldable pub for_resource :
          GroupVersionResource
          → SharedInformerFactory k.Informer
          → Result (GenericInformer k) × SharedInformerFactory k.Informer
      unfolding informer
      for_resource r f =
          if is_caffe2jobs r
          then (let (i, f') = informer f in
              (
                ok (record {
                  informer = i;
                  resource = record { group = r.group; resource = r.resource };
                }),
                f',
              ))
          else (err (message ("no informer found for " <> k.resource_text r)), f)

      unfoldable pub access :
          Access → SharedInformerFactory k.Informer → SharedInformerFactory k.Informer
      access ask_informer f = (informer f).1
      access ask_lister f = (lister f).1
      access start_informers f = start k.Informer f
      access (ask_resource r) f = (for_resource r f).1

      unfoldable pub access_all :
          List Access → SharedInformerFactory k.Informer → SharedInformerFactory k.Informer
      access_all [] f = f
      access_all (a ∷ rest) f = access_all rest (access a f)
