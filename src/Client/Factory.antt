-- ===== src/Client/Factory.antt =====
-- `sharedInformerFactory` of pkg/client/informers/externalversions/factory.go. A type is its name
-- (`reflect.Type`); each operation holds the factory's lock.
pub mod Laws
use caffe2_operator.Prelude.{
  String, Bool, true, false, Option, none, some, List, [], ◌∷◌, if◌then◌else◌,
}
use caffe2_operator.Prelude.Dict.{Dict, lookup, insert}

-- `m[key]` of a `map[reflect.Type]bool`
abbrev pub is_started : String → Dict Bool → Bool
is_started informer_type started = elim (lookup informer_type started) [ none ↦ false | some b ↦ b ]

module _ (Informer : Type 0) where
  pub record SharedInformerFactory : Type 0 where
    pub informers : Dict Informer
    pub started_informers : Dict Bool
    -- the types whose informer has been run, the newest first
    pub running : List String

  -- `NewSharedInformerFactory`
  unfoldable pub new_shared_informer_factory : SharedInformerFactory
  new_shared_informer_factory = record { informers = []; started_informers = []; running = [] }

  -- One round of the loop of `Start`.
  unfoldable pub start_informer : String → SharedInformerFactory → SharedInformerFactory
  start_informer informer_type f =
      if is_started informer_type f.started_informers then f else record f {
        running = informer_type ∷ f.running;
        started_informers = insert informer_type true f.started_informers;
      }

  unfoldable pub start_all : Dict Informer → SharedInformerFactory → SharedInformerFactory
  start_all [] f = f
  start_all ((informer_type, informer) ∷ rest) f = start_all rest (start_informer informer_type f)

  -- `Start`
  unfoldable pub start : SharedInformerFactory → SharedInformerFactory
  start f = start_all f.informers f

  -- `InformerFor`: the informer of a type, made by `newFunc` where there is none yet.
  unfoldable pub informer_for :
      String → (new_func : Informer) → SharedInformerFactory → Informer × SharedInformerFactory
  informer_for informer_type new_func f = elim (lookup informer_type f.informers) [
    | some informer ↦ (informer, f)
    | none ↦ (new_func, record f { informers = insert informer_type new_func f.informers })
  ]

  -- The informers that `WaitForCacheSync` waits for.
  unfoldable pub started_of : Dict Bool → Dict Informer → Dict Informer
  started_of started [] = []
  started_of started ((informer_type, informer) ∷ rest) =
      let others = started_of started rest in
      if is_started informer_type started then (informer_type, informer) ∷ others else others

  -- `cache.WaitForCacheSync` on each of them.
  unfoldable pub synced_of : (Informer → Bool) → Dict Informer → Dict Bool
  synced_of wait [] = []
  synced_of wait ((informer_type, informer) ∷ rest) =
      insert informer_type (wait informer) (synced_of wait rest)

  -- `WaitForCacheSync`
  unfoldable pub wait_for_cache_sync : (Informer → Bool) → SharedInformerFactory → Dict Bool
  wait_for_cache_sync wait f = synced_of wait (started_of f.started_informers f.informers)

  pub data Request : Type 0 where
    ask : String → Informer → Request
    start_requested : Request

  unfoldable pub serve : Request → SharedInformerFactory → SharedInformerFactory
  serve (ask informer_type new_func) f = (informer_for informer_type new_func f).1
  serve start_requested f = start f

  unfoldable pub serve_all : List Request → SharedInformerFactory → SharedInformerFactory
  serve_all [] f = f
  serve_all (r ∷ rs) f = serve_all rs (serve r f)
