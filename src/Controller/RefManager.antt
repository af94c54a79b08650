-- ===== src/Controller/RefManager.antt =====
-- pkg/controller/controller_ref_manager.go: claiming, adopting and releasing pods.
pub mod Claims
pub mod Claimed
pub mod Effects
use caffe2_operator.Prelude.{
  String, Bool, true, false, not, ◌&&◌, ◌||◌, Option, none, some, List, [], ◌∷◌, ◌++◌,
  if◌then◌else◌,
}
use caffe2_operator.Prelude.Text.{◌<>◌}
use text.Mathlib.Text.{◌==◌}
use caffe2_operator.Go.{Error, message, error_text, is_not_found, is_invalid, Result, ok, err}
use caffe2_operator.Kube.{Time, Labels, OwnerReference, ObjectMeta, Pod}
use caffe2_operator.Controller.Cluster.{World, Cluster, patch_pod_on_server}

-- A `PodControllerRefManager` with its `BaseControllerRefManager`; `controllerKind` is given by the
-- text of its group and version, and by its kind.
pub record Manager : Type 0 where
  pub controller : ObjectMeta
  pub selector : Labels → Bool
  pub can_adopt_func : Option (World → Option Error × World)
  pub group_version : String
  pub kind : String

-- The world, and the state of `canAdoptOnce` with `canAdoptErr`: `none` until it has run.
pub record Session : Type 0 where
  pub world : World
  pub once : Option (Option Error)

abbrev pub is_some {ℓ} : {A : Type ℓ} → Option A → Bool
is_some none = false
is_some (some a) = true

-- The function that `canAdoptOnce` runs.
pub first_can_adopt : Option (World → Option Error × World) → Session → Option Error × Session
first_can_adopt none s = (none, record s { once = some none })
first_can_adopt (some f) s = let (e, w) = f s.world in (e, record { world = w; once = some e })

-- `CanAdopt`
unfoldable pub can_adopt : Manager → Session → Option Error × Session
unfolding first_can_adopt
can_adopt m s = elim (s.once) [ none ↦ first_can_adopt m.can_adopt_func s | some e ↦ (e, s) ]

-- What `ClaimObject` returns after an attempt to adopt or release.
pub attempted : Bool → Option Error × Session → Bool × Option Error × Session
attempted done (none, s) = (done, none, s)
attempted done (some e, s) = if is_not_found e then (false, none, s) else (false, some e, s)

-- The object has a controller.
claim_owned :
    Manager
    → OwnerReference
    → Bool
    → (Session → Option Error × Session)
    → Session
    → Bool × Option Error × Session
unfolding attempted
claim_owned m ref matches release s =
    if not (ref.uid == m.controller.uid)
    then (false, none, s)
    else if matches
    then (true, none, s)
    else if is_some m.controller.deletion_timestamp
    then (false, none, s)
    else attempted false (release s)

-- It is an orphan.
claim_orphan :
    Manager
    → ObjectMeta
    → Bool
    → (Session → Option Error × Session)
    → Session
    → Bool × Option Error × Session
unfolding attempted
claim_orphan m obj matches adopt s =
    if is_some m.controller.deletion_timestamp || not matches
    then (false, none, s)
    else if is_some obj.deletion_timestamp
    then (false, none, s)
    else attempted true (adopt s)

-- The closure of `RecheckDeletionTimestamp`.
recheck_result : (Time → String) → Result ObjectMeta → Option Error
recheck_result text (err e) = some (message ("can't recheck DeletionTimestamp: " <> error_text e))
recheck_result text (ok obj) = elim (obj.deletion_timestamp) [
  | none ↦ none
  | some t ↦
      some (message (obj.namespace <> "/" <> obj.name <> " has just been deleted at " <> text t))
]

unfoldable pub recheck_deletion_timestamp :
    (Time → String) → (World → Result ObjectMeta × World) → World → Option Error × World
unfolding recheck_result
recheck_deletion_timestamp text get_object w =
    let (r, w') = get_object w in (recheck_result text r, w')

module _ (k : Cluster) (m : Manager) where
  -- `ClaimObject`; `match` is a pure test, so its answer is passed.
  unfoldable pub claim_object :
      ObjectMeta
      → Bool
      → (adopt release : Session → Option Error × Session) → Session
      → Bool × Option Error × Session
  unfolding claim_owned claim_orphan
  claim_object obj matches adopt release s = elim (k.controller_of obj.owner_references) [
    | none ↦ claim_orphan m obj matches adopt s
    | some ref ↦ claim_owned m ref matches release s
  ]

  pub add_controller_patch : Pod → String
  add_controller_patch pod =
      "{\"metadata\":{\"ownerReferences\":[{\"apiVersion\":\"" <> m.group_version
      <> "\",\"kind\":\"" <> m.kind <> "\",\"name\":\"" <> m.controller.name <> "\",\"uid\":\""
      <> m.controller.uid <> "\",\"controller\":true,\"blockOwnerDeletion\":true}],\"uid\":\""
      <> pod.meta.uid <> "\"}}"

  pub delete_owner_ref_patch : Pod → String
  delete_owner_ref_patch pod =
      "{\"metadata\":{\"ownerReferences\":[{\"$patch\":\"delete\",\"uid\":\"" <> m.controller.uid
      <> "\"}],\"uid\":\"" <> pod.meta.uid <> "\"}}"

  patch : Pod → String → Session → Option Error × Session
  patch pod data_ s =
      let (e, w) = patch_pod_on_server k pod.meta.namespace pod.meta.name data_ s.world in
      (e, record s { world = w })

  cannot_adopt : Pod → Error → Error
  cannot_adopt pod e = message (
      "can't adopt Pod "
      <> pod.meta.namespace
      <> "/"
      <> pod.meta.name
      <> " ("
      <> pod.meta.uid
      <> "): "
      <> error_text e)

  pub adopt_after : Pod → Option Error × Session → Option Error × Session
  unfolding patch cannot_adopt
  adopt_after pod (some e, s) = (some (cannot_adopt pod e), s)
  adopt_after pod (none, s) = patch pod (add_controller_patch pod) s

  -- `AdoptPod`
  unfoldable pub adopt_pod : Pod → Session → Option Error × Session
  unfolding can_adopt adopt_after
  adopt_pod pod s = adopt_after pod (can_adopt m s)

  -- The errors of a release that mean that the pod is gone or not owned.
  release_error : Option Error → Option Error
  release_error none = none
  release_error (some e) = if is_not_found e then none else if is_invalid e then none else some e

  -- `ReleasePod`
  unfoldable pub release_pod : Pod → Session → Option Error × Session
  unfolding patch release_error
  release_pod pod s =
      let (e, s') = patch pod (delete_owner_ref_patch pod) s in (release_error e, s')

  all_pass : List (Pod → Bool) → Pod → Bool
  all_pass [] pod = true
  all_pass (f ∷ fs) pod = f pod && all_pass fs pod

  -- The `match` of `ClaimPods`.
  unfoldable pub matches_pod : List (Pod → Bool) → Pod → Bool
  unfolding all_pass
  matches_pod filters pod = m.selector pod.meta.labels && all_pass filters pod

  -- One round of `ClaimPods`.
  unfoldable pub claim_pod : List (Pod → Bool) → Pod → Session → Bool × Option Error × Session
  unfolding claim_object matches_pod adopt_pod release_pod
  claim_pod filters pod s =
      claim_object pod.meta (matches_pod filters pod) (adopt_pod pod) (release_pod pod) s

  -- The end of a round: the error or the pod goes in front of those of the later rounds.
  pub collect :
      Pod → Bool → Option Error → List Pod × List Error × Session → List Pod × List Error × Session
  collect pod done (some e) (claimed, errlist, s) = (claimed, e ∷ errlist, s)
  collect pod done none (claimed, errlist, s) =
      (if done then pod ∷ claimed else claimed, errlist, s)

  -- The loop of `ClaimPods`: the claimed pods and the errors.
  unfoldable pub claim_each :
      List (Pod → Bool) → List Pod → Session → List Pod × List Error × Session
  claim_each filters [] s = ([], [], s)
  claim_each filters (pod ∷ pods) s =
      let (done, e, s') = claim_pod filters pod s in collect pod done e (claim_each filters pods s')

  -- `ClaimPods`
  unfoldable pub claim_pods :
      List (Pod → Bool) → List Pod → Session → List Pod × Option Error × Session
  unfolding claim_each
  claim_pods filters pods s =
      let (claimed, errlist, s') = claim_each filters pods s in
      (claimed, k.new_aggregate errlist, s')
