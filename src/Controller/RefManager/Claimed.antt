-- ===== src/Controller/RefManager/Claimed.antt =====
-- Which pods `claim_pods` returns, over a whole list.
use mathlib.Core.List.{Memᴰ}
use caffe2_operator.Prelude.{
  ◌≡◌, refl, ◌⊎◌, inl, inr, Bool, true, false, ◌&&◌, Option, none, some, List, [], ◌∷◌, keep, arith,
}
use text.Mathlib.Text.{◌==◌}
use caffe2_operator.Go.{Error}
use caffe2_operator.Kube.{Pod}
use caffe2_operator.Controller.Cluster.{Cluster}
use caffe2_operator.Controller.RefManager.{
  Manager, Session, is_some, claim_object, all_pass, matches_pod, claim_pod, collect, claim_each,
  claim_pods,
}
use caffe2_operator.Controller.RefManager.Claims.{
  Owned, Grounds, claim_pod_sound, claim_pod_complete, claim_pod_keeps_once,
}

pub matches_selector :
    (k : Cluster) (m : Manager) (pod : Pod)
    → m.selector pod.meta.labels ≡ true
    → matches_pod k m [] pod ≡ true
unfolding matches_pod all_pass
matches_selector k m pod h = rw h refl

module _ (k : Cluster) (m : Manager) (filters : List (Pod → Bool)) where
  pub collect_session :
      (p : Pod) (b : Bool) (e : Option Error) (rest : List Pod × List Error × Session)
      → (collect k m p b e rest).2 ≡ rest.2
  unfolding collect
  collect_session p b (some e) (c, l, s) = refl
  collect_session p b none (c, l, s) = refl

  mem-collect :
      (p x : Pod) (b : Bool) (e : Option Error) (rest : List Pod × List Error × Session)
      → Memᴰ x (collect k m p b e rest).0
      → ((x ≡ p) × (b ≡ true)) ⊎ Memᴰ x rest.0
  unfolding collect
  mem-collect p x b (some e) (c, l, s) h = inr h
  mem-collect p x true none (c, l, s) (Memᴰ.head h) = inl (h, refl)
  mem-collect p x true none (c, l, s) (Memᴰ.tail h) = inr h
  mem-collect p x false none (c, l, s) h = inr h

  collect-mem :
      (p x : Pod) (b : Bool) (e : Option Error) (rest : List Pod × List Error × Session)
      → Memᴰ x rest.0
      → Memᴰ x (collect k m p b e rest).0
  unfolding collect
  collect-mem p x b (some e) (c, l, s) h = h
  collect-mem p x true none (c, l, s) h = Memᴰ.tail h
  collect-mem p x false none (c, l, s) h = h

  claim_each_keeps_once :
      (pods : List Pod) (s : Session) (e : Option Error)
      → s.once ≡ some e
      → (claim_each k m filters pods s).2.once ≡ some e
  unfolding claim_each
  claim_each_keeps_once [] s e h = h
  claim_each_keeps_once (p ∷ pods) s e h = rw collect_session (
      claim_each_keeps_once pods (claim_pod k m filters p s).2 e
        (claim_pod_keeps_once k m filters p s e h))

  Grounds-later :
      (pod : Pod) (pods : List Pod) (s : Session)
      → Grounds k m filters pod s
      → Grounds k m filters pod (claim_each k m filters pods s).2
  Grounds-later pod pods s (t, inl o) = (t, inl o)
  Grounds-later pod pods s (t, inr (a, e)) = (t, inr (a, claim_each_keeps_once pods s (none) e))

  claim_each_sound :
      (pods : List Pod) (s : Session) (pod : Pod)
      → Memᴰ pod (claim_each k m filters pods s).0
      → Memᴰ pod pods × Grounds k m filters pod (claim_each k m filters pods s).2
  unfolding claim_each
  claim_each_sound [] s pod h = elim h [ ]
  claim_each_sound (p ∷ pods) s pod h =
      elim (mem-collect p pod (claim_pod k m filters p s).0 (claim_pod k m filters p s).1
        (claim_each k m filters pods (claim_pod k m filters p s).2) h) [
          | inl (same, done) ↦ rw collect_session (
            Memᴰ.head same,
            rw same (
                Grounds-later p pods (claim_pod k m filters p s).2
                  (claim_pod_sound k m filters p s done)),
          )
          | inr later ↦
              let found = claim_each_sound pods (claim_pod k m filters p s).2 pod later in
              rw collect_session (Memᴰ.tail found.0, found.1)
        ]

  collect-head :
      (p x : Pod) (rest : List Pod × List Error × Session)
      → x ≡ p
      → Memᴰ x (collect k m p true none rest).0
  unfolding collect
  collect-head p x (c, l, s) e = Memᴰ.head e

  claim_each_complete :
      (pods : List Pod) (s : Session) (pod : Pod)
      → Memᴰ pod pods
      → Owned k m pod
      → matches_pod k m filters pod ≡ true
      → Memᴰ pod (claim_each k m filters pods s).0
  unfolding claim_each
  claim_each_complete [] s pod h o t = elim h [ ]
  claim_each_complete (p ∷ pods) s pod (Memᴰ.head e) o t =
      rw (claim_pod_complete k m filters p s (rw e at o) (rw e at t))
        (collect-head p pod (claim_each k m filters pods s) e)
  claim_each_complete (p ∷ pods) s pod (Memᴰ.tail h) o t =
      collect-mem p pod (claim_pod k m filters p s).0 (claim_pod k m filters p s).1
        (claim_each k m filters pods (claim_pod k m filters p s).2)
        (claim_each_complete pods (claim_pod k m filters p s).2 pod h o t)

  -- `ClaimPods` returns only pods of the list that match the selector and the filters and that are
  -- either controlled by this controller's UID, or were orphans while nothing was being deleted and
  -- `CanAdopt` had answered nil.
  pub claim_pods_sound :
      (pods : List Pod) (s : Session) (pod : Pod)
      → Memᴰ pod (claim_pods k m filters pods s).0
      → Memᴰ pod pods × Grounds k m filters pod (claim_pods k m filters pods s).2
  unfolding claim_pods
  claim_pods_sound pods s pod h = claim_each_sound pods s pod h

  -- `ClaimPods` returns every pod of the list that this controller's UID controls and that matches,
  -- whatever happens to the others and whether or not the controller is being deleted.
  pub claim_pods_complete :
      (pods : List Pod) (s : Session) (pod : Pod)
      → Memᴰ pod pods
      → Owned k m pod
      → matches_pod k m filters pod ≡ true
      → Memᴰ pod (claim_pods k m filters pods s).0
  unfolding claim_pods
  claim_pods_complete pods s pod h o t = claim_each_complete pods s pod h o t

  -- The pod's controller reference names the manager's controller, as a test.
  abbrev pub is_mine : Pod → Bool
  is_mine pod = elim (k.controller_of pod.meta.owner_references) [
    | none ↦ false
    | some ref ↦ ref.uid == m.controller.uid
  ]

  claim_pod_deleting :
      (pod : Pod) (s : Session)
      → is_some m.controller.deletion_timestamp ≡ true
      → claim_pod k m filters pod s ≡ (is_mine pod && matches_pod k m filters pod, none, s)
  claim_pod_deleting pod s h = unfold claim_pod claim_object in ground arith

  claim_each_deleting :
      (pods : List Pod) (s : Session)
      → is_some m.controller.deletion_timestamp ≡ true
      → claim_each k m filters pods s
        ≡ (keep (λ pod. is_mine pod && matches_pod k m filters pod) pods, [], s)
  unfolding claim_each collect
  claim_each_deleting [] s h = refl
  claim_each_deleting (p ∷ pods) s h =
      rw (claim_pod_deleting p s h) (rw (claim_each_deleting pods s h))

  -- A controller that is being deleted adopts and releases nothing: `ClaimPods` makes no call, fails
  -- for no pod, and returns exactly the pods that it controls and that match, in their order.
  pub claim_pods_deleting :
      (pods : List Pod) (s : Session)
      → is_some m.controller.deletion_timestamp ≡ true
      → claim_pods k m filters pods s
        ≡ (keep (λ pod. is_mine pod && matches_pod k m filters pod) pods, k.new_aggregate [], s)
  unfolding claim_pods
  claim_pods_deleting pods s h = rw (claim_each_deleting pods s h)
