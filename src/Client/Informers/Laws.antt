-- ===== src/Client/Informers/Laws.antt =====
-- That the users of a factory share one informer.
use text.Mathlib.Text.{◌==◌}
use caffe2_operator.Prelude.{
  false, ap, ℕ, String, none, some, ◌⊎◌, inl, inr, List, [], ◌∷◌, ◌≡◌, refl, arith, Bool-cases,
}
use caffe2_operator.Client.Informers.{
  new_caffe2_job_informer, GroupVersionResource, Caches, default_caffe2_job_informer, informer,
  lister, is_caffe2jobs, for_resource, Access, ask_informer, ask_lister, start_informers,
  ask_resource, access, access_all,
}
use caffe2_operator.Prelude.Dict.{lookup, insert, lookup-insert}
use caffe2_operator.Prelude.Text.{◌<>◌}
use text.Mathlib.TextEquality.{eq_iff}
use caffe2_operator.Go.{message, ok, err}
use caffe2_operator.Client.Interface.{Caffe2JobInterface}
use caffe2_operator.Client.Factory.{
  SharedInformerFactory, new_shared_informer_factory, start, start_all, start_informer,
  informer_for,
}

start_all-informers :
    {A : Type 0} (entries : List (String × A)) (f : SharedInformerFactory A)
    → (start_all A entries f).informers ≡ f.informers
unfolding start_all start_informer
start_all-informers [] f = refl
start_all-informers {A} ((t, i) ∷ rest) f =
    ground (arith, start_all-informers rest (start_informer A t f))

abbrev pub jobs_resource : GroupVersionResource
jobs_resource = record { group = "kubeflow.org"; version = "v1alpha1"; resource = "caffe2jobs" }

not_jobs : (r : GroupVersionResource) → ¬ (r ≡ jobs_resource) → is_caffe2jobs r ≡ false
not_jobs r other = elim (Bool-cases (r.group == "kubeflow.org")) [
  | inr e ↦ rw e refl
  | inl e ↦ elim (Bool-cases (r.version == "v1alpha1")) [
    | inr d ↦ rw (e, d) refl
    | inl d ↦ elim (Bool-cases (r.resource == "caffe2jobs")) [
      | inr b ↦ rw (e, d, b) refl
      | inl b ↦ absurd (
          other (
            same r ((eq_iff r.group "kubeflow.org").0 e) ((eq_iff r.version "v1alpha1").0 d)
              ((eq_iff r.resource "caffe2jobs").0 b)))
    ]
  ]
]
  where
    same :
        (r : GroupVersionResource)
        → r.group ≡ "kubeflow.org"
        → r.version ≡ "v1alpha1"
        → r.resource ≡ "caffe2jobs"
        → r ≡ jobs_resource
    same r g v n i = record { group = g i; version = v i; resource = n i }

module _ (State Watch : Type 0) (k : Caches State Watch)
    (client : (namespace : String) → Caffe2JobInterface State Watch) (resync : ℕ) where
  -- The informer of the jobs of all namespaces, which the empty namespace stands for.
  abbrev the_informer : k.Informer
  the_informer =
      k.new_shared_index_informer
        (record { list_func = (client "").list; watch_func = (client "").watch }) "Caffe2Job" resync
        k.by_namespace

  -- No informer yet, or the one.
  abbrev HasOne : SharedInformerFactory k.Informer → Type 0
  HasOne f =
      (lookup "Caffe2Job" f.informers ≡ none) ⊎ (lookup "Caffe2Job" f.informers ≡ some the_informer)

  informer-HasOne :
      (f : SharedInformerFactory k.Informer)
      → HasOne f
      → ((informer State Watch k client resync f).0 ≡ the_informer)
        × HasOne (informer State Watch k client resync f).1
  unfolding informer informer_for default_caffe2_job_informer new_caffe2_job_informer
  informer-HasOne f (inl e) = rw (e, informer_for) (refl, inr (found f.informers))
    where
      found :
          (d : List (String × k.Informer))
          → lookup "Caffe2Job" (insert "Caffe2Job" the_informer d) ≡ some the_informer
      found d = lookup-insert "Caffe2Job" "Caffe2Job" the_informer d
  informer-HasOne f (inr e) = rw (e, informer_for) (refl, inr e)

  access-HasOne :
      (a : Access) (f : SharedInformerFactory k.Informer)
      → HasOne f
      → HasOne (access State Watch k client resync a f)
  unfolding access lister for_resource start
  access-HasOne ask_informer f h = (informer-HasOne f h).1
  access-HasOne ask_lister f h = (informer-HasOne f h).1
  access-HasOne start_informers f h = rw (start_all-informers f.informers f) h
  access-HasOne (ask_resource r) f h = elim (Bool-cases (is_caffe2jobs r)) [
    | inl e ↦ rw (e, access) (informer-HasOne f h).1
    | inr e ↦ rw (e, access) h
  ]

  access_all-HasOne :
      (accesses : List (Access)) (f : SharedInformerFactory k.Informer)
      → HasOne f
      → HasOne (access_all State Watch k client resync accesses f)
  unfolding access_all
  access_all-HasOne [] f h = h
  access_all-HasOne (a ∷ rest) f h =
      access_all-HasOne rest (access State Watch k client resync a f) (access-HasOne a f h)

  -- What the users get of a factory: the one informer, its indexer, and nothing for other resources.
  pub record Shares (f : SharedInformerFactory k.Informer) : Type 0 where
    pub of_informer : (informer State Watch k client resync f).0 ≡ the_informer
    pub of_lister : (lister State Watch k client resync f).0 ≡ k.get_indexer the_informer
    pub of_jobs :
        (for_resource State Watch k client resync jobs_resource f).0
        ≡ ok (record {
          informer = the_informer;
          resource = record { group = "kubeflow.org"; resource = "caffe2jobs" };
        })
    pub of_others :
        (r : GroupVersionResource)
        → ¬ (r ≡ jobs_resource)
        → (for_resource State Watch k client resync r f).0
          ≡ err (message ("no informer found for " <> k.resource_text r))

  HasOne-Shares : (f : SharedInformerFactory k.Informer) → HasOne f → Shares f
  unfolding lister for_resource
  HasOne-Shares f h = record {
    of_informer = (informer-HasOne f h).0;
    of_lister = ap k.get_indexer (informer-HasOne f h).0;
    of_jobs = rw (informer-HasOne f h).0 refl;
    of_others = λ r other. rw (not_jobs r other, for_resource) refl;
  }

  -- After any sequence of calls of Informer, Lister, ForResource and Start on a new factory, Informer,
  -- Lister and ForResource of the resource of the jobs give the one informer, which lists and watches
  -- the jobs of all namespaces, or its indexer, and ForResource of any other resource gives an error.
  pub access_all-Shares :
      (accesses : List Access)
      → Shares
          (access_all State Watch k client resync accesses (new_shared_informer_factory k.Informer))
  access_all-Shares accesses = HasOne-Shares _ (
      access_all-HasOne accesses (new_shared_informer_factory k.Informer)
        (unfold new_shared_informer_factory lookup in inl refl))
